-- ===== src/NativeInstance/Group.antt =====
-- Group calls: the methods that make a group instance, pass calls on to it and destroy it.
use mqtgcalls.Prelude.{ℕ, Bytes, Bool, true, false, Option, none, some, ℤ, List, [], ◌∷◌, ◌++◌}
use mqtgcalls.NativeInstance.Defs.{
  Ref, Factory, file_factory, raw_factory, platform_factory, GroupDescriptor, NativeInstance,
  Effect, ConnectionMode, Outcome, group_created, group_freed, holder_freed, emit_join_payload,
  emit_join_payload_to, set_join_response_payload, set_is_muted, set_volume, set_connection_mode,
  perform_with_audio_device_module, get_audio_devices, set_audio_output_device,
  set_audio_input_device, join_payload_to, network_state_to,
}

-- The group instance behind the two pointers.
unfoldable pub group_of : NativeInstance → Option GroupDescriptor
group_of s = elim s.instance_holder [ none ↦ none | some h ↦ h.group_native_instance ]

unfoldable pub setup_group_call : NativeInstance → Option Ref → Option Ref → ℤ → NativeInstance
setup_group_call s emit_join_payload_callback network_state_updated outgoing_audio_bitrate_kbit =
    record s {
      emit_join_payload_callback = emit_join_payload_callback;
      network_state_updated = network_state_updated;
      outgoing_audio_bitrate_kbit = outgoing_audio_bitrate_kbit;
    }

-- `moved_from` is what a string holds after `std::move`, which the language leaves open. The old
-- holder goes when the new one takes its place; then the group instance is made and asked for its
-- payload.
unfoldable pub create_instance_holder :
    (Bytes → Bytes) → NativeInstance → Factory → Bytes → Bytes → NativeInstance × List Effect
create_instance_holder moved_from s factory input output =
    let descriptor : GroupDescriptor = record {
      log_path = s.log_path;
      log_to_std_err = s.log_to_std_err;
      initial_input_device_id = input;
      initial_output_device_id = output;
      create_audio_device_module = factory;
      outgoing_audio_bitrate_kbit = s.outgoing_audio_bitrate_kbit;
      disable_outgoing_audio_processing = true;
    } in
    (
      record s {
        log_path = moved_from s.log_path;
        instance_holder =
            some (record { native_instance = none; group_native_instance = some descriptor });
      },
      holder_freed s.instance_holder ++ (group_created descriptor ∷ emit_join_payload ∷ []),
    )

unfoldable pub start_group_call_file :
    (Bytes → Bytes) → NativeInstance → Option Ref → NativeInstance × List Effect
start_group_call_file moved_from s descriptor =
    create_instance_holder moved_from (record s { file_audio_device_descriptor = descriptor })
      file_factory [] []

unfoldable pub start_group_call_raw :
    (Bytes → Bytes) → NativeInstance → Option Ref → NativeInstance × List Effect
start_group_call_raw moved_from s descriptor =
    create_instance_holder moved_from (record s { raw_audio_device_descriptor = descriptor })
      raw_factory [] []

unfoldable pub start_group_call_platform :
    (Bytes → Bytes) → NativeInstance → Bytes → Bytes → NativeInstance × List Effect
start_group_call_platform moved_from s input output =
    create_instance_holder moved_from s platform_factory input output

-- What a factory makes a device from when the group instance calls it: the lambdas move the
-- descriptor out of the `NativeInstance`, and a moved `shared_ptr` is null.
unfoldable pub create_audio_device_module : NativeInstance → Factory → Option Ref × NativeInstance
create_audio_device_module s file_factory =
    (s.file_audio_device_descriptor, record s { file_audio_device_descriptor = none })
create_audio_device_module s raw_factory =
    (s.raw_audio_device_descriptor, record s { raw_audio_device_descriptor = none })
create_audio_device_module s platform_factory = (none, s)

unfoldable pub stop_group_call : NativeInstance → Outcome
stop_group_call s = elim s.instance_holder [
  | none ↦ none
  | some h ↦ some (
    record s { instance_holder = some (record h { group_native_instance = none }) },
    group_freed h.group_native_instance,
  )
]

unfoldable pub is_group_call_native_created : NativeInstance → Bool
is_group_call_native_created s = elim s.instance_holder [
  | none ↦ false
  | some h ↦ elim h.group_native_instance [ none ↦ false | some g ↦ true ]
]

-- The methods that only pass a call on to the group instance.
pub data GroupCall : Type 0 where
  emits_join_payload : Option Ref → GroupCall
  sets_join_response_payload : Bytes → GroupCall
  sets_is_muted : Bool → GroupCall
  -- `volume` is the number that the 64 bits of the `double` are.
  sets_volume : (ssrc volume : ℕ) → GroupCall
  sets_connection_mode : ConnectionMode → Bool → GroupCall
  stops_audio_device_module starts_audio_device_module : GroupCall
  restarts_audio_input_device restarts_audio_output_device : GroupCall
  gets_playout_devices gets_recording_devices : GroupCall
  sets_audio_output_device sets_audio_input_device : Bytes → GroupCall

unfoldable pub passed_on : GroupCall → Effect
passed_on (emits_join_payload f) = emit_join_payload_to f
passed_on (sets_join_response_payload payload) = set_join_response_payload payload
passed_on (sets_is_muted is_muted) = set_is_muted is_muted
passed_on (sets_volume ssrc volume) = set_volume ssrc volume
passed_on (sets_connection_mode mode keep_broadcast) = set_connection_mode mode keep_broadcast
passed_on stops_audio_device_module = perform_with_audio_device_module
passed_on starts_audio_device_module = perform_with_audio_device_module
passed_on restarts_audio_input_device = perform_with_audio_device_module
passed_on restarts_audio_output_device = perform_with_audio_device_module
passed_on gets_playout_devices = get_audio_devices true
passed_on gets_recording_devices = get_audio_devices false
passed_on (sets_audio_output_device id) = set_audio_output_device id
passed_on (sets_audio_input_device id) = set_audio_input_device id

unfoldable pub group_call : GroupCall → NativeInstance → Outcome
unfolding group_of passed_on
group_call c s = elim (group_of s) [ none ↦ none | some g ↦ some (s, passed_on c ∷ []) ]

-- The callbacks that a group instance has of the `NativeInstance`.
unfoldable pub on_network_state_updated : NativeInstance → (is_connected : Bool) → Outcome
on_network_state_updated s is_connected = elim s.network_state_updated [
  | none ↦ none
  | some f ↦ some (s, network_state_to f is_connected ∷ [])
]

unfoldable pub on_join_payload : NativeInstance → (payload : Bytes) → Outcome
on_join_payload s payload = elim s.emit_join_payload_callback [
  | none ↦ none
  | some f ↦ some (s, join_payload_to f payload ∷ [])
]
