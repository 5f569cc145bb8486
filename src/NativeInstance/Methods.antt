-- ===== src/NativeInstance/Methods.antt =====
-- Every method that Python may call, as data.
use mqtgcalls.Prelude.{Bytes, Bool, Option, none, some, ℤ, List, [], ◌∷◌, ◌++◌}
use mqtgcalls.RtcServer.{RtcServer}
use mqtgcalls.NativeInstance.Defs.{Ref, CallDescriptor, NativeInstance, Outcome}
use mqtgcalls.NativeInstance.Group.{
  GroupCall, setup_group_call, start_group_call_file, start_group_call_raw,
  start_group_call_platform, stop_group_call, group_call,
}
use mqtgcalls.NativeInstance.Call.{
  start_call, receive_signaling, set_signaling_data_emitted_callback,
}

pub data Method : Type 0 where
  setups_group_call : (emit_join_payload network_state : Option Ref) → ℤ → Method
  starts_file_call starts_raw_call : Option Ref → Method
  starts_platform_call : (input output : Bytes) → Method
  stops_group_call : Method
  calls_group : GroupCall → Method
  starts_call : List RtcServer → (auth_key : Bytes) → Bool → (log_path : Bytes) → Method
  receives_signaling : Bytes → Method
  sets_signaling_callback : Option Ref → Method

-- `moved_from` and `created` are those of the standard library and of tgcalls.
module _ (moved_from : Bytes → Bytes) (created : Bytes → CallDescriptor → Bool) where
  unfoldable pub step : Method → NativeInstance → Outcome
  step (setups_group_call emit state bitrate) s = some (setup_group_call s emit state bitrate, [])
  step (starts_file_call descriptor) s = some (start_group_call_file moved_from s descriptor)
  step (starts_raw_call descriptor) s = some (start_group_call_raw moved_from s descriptor)
  step (starts_platform_call input output) s =
      some (start_group_call_platform moved_from s input output)
  step stops_group_call s = stop_group_call s
  step (calls_group c) s = group_call c s
  step (starts_call servers auth_key is_outgoing log_path) s =
      start_call created s servers auth_key is_outgoing log_path
  step (receives_signaling signal) s = receive_signaling s signal
  step (sets_signaling_callback f) s = some (set_signaling_data_emitted_callback s f, [])

  -- The methods one after the other, up to the first fault.
  unfoldable pub run : List Method → NativeInstance → Outcome
  run [] s = some (s, [])
  run (m ∷ ms) s = elim (step m s) [
    | none ↦ none
    | some (s', es) ↦ elim (run ms s') [ none ↦ none | some (s'', fs) ↦ some (s'', es ++ fs) ]
  ]
