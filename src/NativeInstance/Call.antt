-- ===== src/NativeInstance/Call.antt =====
-- Calls between two users.
use mqtgcalls.Prelude.{
  Bytes, Bool, true, false, Option, none, some, List, [], ◌∷◌, ◌++◌, codes, take,
}
use mqtgcalls.RtcServer.{RtcServer, add_servers}
use mqtgcalls.NativeInstance.Defs.{
  Ref, never, v0, CallConfig, MediaDevicesConfig, CallDescriptor, NativeInstance, Outcome,
  holder_freed, instance_created, set_network_type_wifi, set_requested_video_aspect,
  set_mute_microphone, receive_signaling_data, signaling_data_to,
}

abbrev pub version : Bytes
version = codes "3.0.0"

-- The configuration, all constants but the log's path.
unfoldable pub call_config : (log_path : Bytes) → CallConfig
call_config log_path = record {
  initialization_timeout = 1000;
  receive_timeout = 1000;
  data_saving = never;
  enable_p2p = false;
  allow_tcp = false;
  enable_stun_marking = true;
  enable_aec = true;
  enable_ns = true;
  enable_agc = true;
  enable_volume_control = true;
  log_path = log_path;
  stats_log_path =
      codes "/Users/marshal/projects/tgcalls/python-binding/pytgcalls/tgcalls-stat.txt";
  max_api_layer = 92;
  enable_high_bitrate_video = false;
  preferred_video_codecs = [];
  protocol_version = v0;
}

abbrev pub media_config : MediaDevicesConfig
media_config = record {
  audio_input_id = codes "VB-Cable";
  audio_output_id = codes "default (Built-in Output)";
  input_volume = 1;
  output_volume = 1;
}

-- The descriptor that `startCall` builds. `auth_key` is an array of 256 bytes.
unfoldable pub call_descriptor :
    List RtcServer → (auth_key : Bytes) → (is_outgoing : Bool) → (log_path : Bytes) → CallDescriptor
call_descriptor servers auth_key is_outgoing log_path = record {
  config = call_config log_path;
  persistent_state = [];
  rtc_servers = add_servers [] servers;
  encryption_key = take 256 auth_key;
  is_outgoing = is_outgoing;
  media_devices_config = media_config;
  video_capture = false;
}

-- `created version descriptor`: `tgcalls::Meta::Create` gives an instance, and not null.
unfoldable pub start_call :
    (Bytes → CallDescriptor → Bool)
    → NativeInstance
    → List RtcServer
    → Bytes
    → Bool
    → Bytes
    → Outcome
start_call created s servers auth_key is_outgoing log_path =
    let descriptor = call_descriptor servers auth_key is_outgoing log_path in
    elim (created version descriptor) [
      | false ↦ none
      | true ↦ some (
        record s {
          instance_holder =
              some (record { native_instance = some descriptor; group_native_instance = none });
        },
        holder_freed s.instance_holder
            ++ (instance_created descriptor
                ∷ set_network_type_wifi
                ∷ set_requested_video_aspect 1
                ∷ set_mute_microphone false
                ∷ []),
      )
    ]

unfoldable pub receive_signaling : NativeInstance → Bytes → Outcome
receive_signaling s signal = elim s.instance_holder [
  | none ↦ none
  | some h ↦ elim h.native_instance [
    | none ↦ none
    | some i ↦ some (s, receive_signaling_data signal ∷ [])
  ]
]

unfoldable pub set_signaling_data_emitted_callback : NativeInstance → Option Ref → NativeInstance
set_signaling_data_emitted_callback s f = record s { signaling_data_emitted_callback = f }

-- The instance emits signaling data: the lambda of `startCall`.
unfoldable pub on_signaling_data : NativeInstance → Bytes → Outcome
on_signaling_data s signal = elim s.signaling_data_emitted_callback [
  | none ↦ none
  | some f ↦ some (s, signaling_data_to f signal ∷ [])
]
