-- ===== src/Tests/Bindings.antt =====
-- Calls and objects that pass through the bindings.
use mqtgcalls.Prelude.{false, [], ◌∷◌, ◌≡◌, refl, none, some, pos, codes}
use mqtgcalls.NativeInstance.Methods.{starts_file_call, starts_raw_call}
use mqtgcalls.Bindings.Casters.{◌>>=◌}
use mqtgcalls.Bindings.Attributes.{attributes_of}
use mqtgcalls.Bindings.Classes.{
  GroupJoinPayloadVideoPayloadType, rtc_server_init, rtc_server_class, group_join_payload_class,
  video_payload_type_class, video_source_group_class, file_descriptor_class, raw_descriptor_class,
  audio_device_class,
}
use mqtgcalls.Bindings.Copies.{
  AreConvertible, IsPayloadType, Objects, copied, attributes_complete, payload_type_copied,
}
use mqtgcalls.Bindings.Dispatch.{runs, dispatch, native_instance_class}
use mqtgcalls.Bindings.Calls.{dispatch_lem}
use mqtgcalls.Tests.{server}
use mqtgcalls.Tests.Values.{py_none, casters, resolution}

-- `startGroupCall(None)`, meant for a raw device.
dispatch_lem_example :
    dispatch resolution (native_instance_class casters) (codes "startGroupCall") (py_none ∷ [])
    ≡ some (runs (starts_file_call none))
dispatch_lem_example = dispatch_lem resolution casters (starts_raw_call none) tt

abbrev objects : Objects
objects = record {
  server = server;
  payload = record { audio_ssrc = 7; json = codes "{}" };
  source_group = record { ssrcs = 7 ∷ 8 ∷ []; semantics = codes "SIM" };
  file_callbacks = record {
    get_input_filename = some 1;
    get_output_filename = some 2;
    is_endless_playout = some 3;
    is_playout_paused = some 4;
    is_recording_paused = some 5;
    playout_ended_callback = none;
  };
  raw_callbacks = record {
    get_played_buffer_callback = some 1;
    set_recorded_buffer_callback = some 2;
    is_playout_paused = some 3;
    is_recording_paused = none;
  };
  audio_device = record { name = codes "mic"; guid = codes "1" };
}

-- Objects as their classes make them.
abbrev blank : Objects
blank = record {
  server = record server { ip = []; port = pos 0; is_turn = false };
  payload = record { audio_ssrc = 0; json = [] };
  source_group = record { ssrcs = []; semantics = [] };
  file_callbacks = record {
    get_input_filename = none;
    get_output_filename = none;
    is_endless_playout = none;
    is_playout_paused = none;
    is_recording_paused = none;
    playout_ended_callback = none;
  };
  raw_callbacks = record {
    get_played_buffer_callback = none;
    set_recorded_buffer_callback = none;
    is_playout_paused = none;
    is_recording_paused = none;
  };
  audio_device = record { name = []; guid = [] };
}

objects-AreConvertible : AreConvertible casters objects
objects-AreConvertible = record {
  server = record { ip = refl; ipv6 = refl; port = refl; login = refl; password = refl };
  audio_ssrc = refl;
  json = refl;
  ssrcs = refl;
  semantics = refl;
  name = refl;
  guid = refl;
}

attributes_complete_example :
    ((attributes_of (rtc_server_class casters) objects.server >>= rtc_server_init casters)
      ≡ some objects.server)
    × (copied casters (rtc_server_class casters) objects.server blank.server ≡ some objects.server)
    × (copied casters (group_join_payload_class casters) objects.payload blank.payload
        ≡ some objects.payload)
    × (copied casters (video_source_group_class casters) objects.source_group blank.source_group
        ≡ some objects.source_group)
    × (copied casters (file_descriptor_class casters) objects.file_callbacks blank.file_callbacks
        ≡ some objects.file_callbacks)
    × (copied casters (raw_descriptor_class casters) objects.raw_callbacks blank.raw_callbacks
        ≡ some objects.raw_callbacks)
    × (copied casters (audio_device_class casters) objects.audio_device blank.audio_device
        ≡ some objects.audio_device)
attributes_complete_example = attributes_complete casters objects blank objects-AreConvertible

abbrev opus : GroupJoinPayloadVideoPayloadType
opus = record {
  id = 111;
  name = codes "opus";
  clockrate = 48000;
  channels = 2;
  feedback_types = record { kind = codes "transport-cc"; subtype = [] } ∷ [];
  parameters = [];
}

opus-IsPayloadType : IsPayloadType casters opus
opus-IsPayloadType = record {
  id = refl;
  name = refl;
  clockrate = refl;
  channels = refl;
  parameters = refl;
}

-- A payload type with a feedback type cannot be copied.
payload_type_copied_example :
    copied casters (video_payload_type_class casters) opus (record opus { id = 0 }) ≡ none
payload_type_copied_example =
    payload_type_copied casters opus (record opus { id = 0 }) opus-IsPayloadType
