-- ===== src/NativeInstance/Protocol.antt =====
-- The object as a machine with four states, which says what methods may be called.
use mqtgcalls.Prelude.{
  Bytes, Bool, true, false, Option, none, some, List, [], ◌∷◌, ◌≡◌, refl, inl, inr, arith,
  Option-cases,
}
use mqtgcalls.NativeInstance.Defs.{
  CallDescriptor, GroupDescriptor, InstanceHolder, NativeInstance, Outcome, new_instance,
}
use mqtgcalls.NativeInstance.Group.{
  setup_group_call, create_instance_holder, start_group_call_file, start_group_call_raw,
  start_group_call_platform, stop_group_call, group_call,
}
use mqtgcalls.NativeInstance.Call.{
  version, call_descriptor, start_call, receive_signaling, set_signaling_data_emitted_callback,
}
use mqtgcalls.NativeInstance.Methods.{
  Method, setups_group_call, starts_file_call, starts_raw_call, starts_platform_call,
  stops_group_call, calls_group, starts_call, receives_signaling, sets_signaling_callback, step,
  run,
}

pub data Status : Type 0 where
  fresh idle in_group in_call : Status

abbrev pub holder_status : InstanceHolder → Status
holder_status h = elim h.group_native_instance [
  | none ↦ elim h.native_instance [ none ↦ idle | some i ↦ in_call ]
  | some g ↦ in_group
]

abbrev pub status_of : NativeInstance → Status
status_of s = elim s.instance_holder [ none ↦ fresh | some h ↦ holder_status h ]

-- A holder never has both an instance and a group instance.
abbrev pub IsSingle : Option CallDescriptor → Option GroupDescriptor → Type 0
IsSingle (some i) (some g) = ⊥
IsSingle _ _ = Unit

abbrev pub HasOne : NativeInstance → Type 0
HasOne s = elim s.instance_holder [
  | none ↦ Unit
  | some h ↦ IsSingle h.native_instance h.group_native_instance
]

-- The machine: `none` is a fault. `starts` is whether the library makes an instance for a call.
unfoldable pub next_status : (starts : Bool) → Method → Status → Option Status
next_status starts (setups_group_call emit state bitrate) p = some p
next_status starts (starts_file_call descriptor) p = some in_group
next_status starts (starts_raw_call descriptor) p = some in_group
next_status starts (starts_platform_call input output) p = some in_group
next_status starts stops_group_call fresh = none
next_status starts stops_group_call in_group = some idle
next_status starts stops_group_call p = some p
next_status starts (calls_group c) in_group = some in_group
next_status starts (calls_group c) _ = none
next_status true (starts_call servers auth_key is_outgoing log_path) p = some in_call
next_status false (starts_call servers auth_key is_outgoing log_path) p = none
next_status starts (receives_signaling signal) in_call = some in_call
next_status starts (receives_signaling signal) _ = none
next_status starts (sets_signaling_callback f) p = some p

unfoldable pub status_after : (starts : Bool) → List Method → Status → Option Status
status_after starts [] p = some p
status_after starts (m ∷ ms) p = elim (next_status starts m p) [
  | none ↦ none
  | some q ↦ status_after starts ms q
]

abbrev pub outcome_status : Outcome → Option Status
outcome_status none = none
outcome_status (some (s, es)) = some (status_of s)

abbrev pub OutcomeHasOne : Outcome → Type 0
OutcomeHasOne none = Unit
OutcomeHasOne (some (s, es)) = HasOne s

module _ (moved_from : Bytes → Bytes) (created : Bytes → CallDescriptor → Bool) (starts : Bool)
    (library : (d : CallDescriptor) → created version d ≡ starts) where
  pub step-HasOne :
      (m : Method) (s : NativeInstance) → HasOne s → OutcomeHasOne (step moved_from created m s)
  unfolding step setup_group_call create_instance_holder start_group_call_file start_group_call_raw
      start_group_call_platform stop_group_call group_call start_call receive_signaling
      set_signaling_data_emitted_callback
  step-HasOne (setups_group_call emit state bitrate) s one = one
  step-HasOne _ s one = ground arith

  pub step-next_status :
      (m : Method) (s : NativeInstance)
      → HasOne s
      → outcome_status (step moved_from created m s) ≡ next_status starts m (status_of s)
  unfolding step setup_group_call create_instance_holder start_group_call_file start_group_call_raw
      start_group_call_platform stop_group_call group_call start_call receive_signaling
      set_signaling_data_emitted_callback next_status
  step-next_status (setups_group_call emit state bitrate) s one = ground arith
  step-next_status (starts_call servers auth_key is_outgoing log_path) s one =
      ground (arith, library (call_descriptor servers auth_key is_outgoing log_path))
  step-next_status _ s one = ground arith

  run-status_after :
      (ms : List Method) (s : NativeInstance)
      → HasOne s
      → outcome_status (run moved_from created ms s) ≡ status_after starts ms (status_of s)
  unfolding run status_after
  run-status_after [] s one = refl
  run-status_after (m ∷ ms) s one = elim (Option-cases (step moved_from created m s)) [
    | inl fault ↦ ground (arith, step-next_status m s one)
    | inr ((s', es), e) ↦
        ground
          (arith, step-next_status m s one, run-status_after ms s' (rw e at (step-HasOne m s one)))
  ]

  -- Any sequence of methods on a new object does what a machine with four states (no holder,
  -- nothing running, in a group call, in a call) does: it reaches the same state, and it faults,
  -- by a call through a null pointer, exactly where the machine has no step. For every descriptor
  -- the library makes an instance of version 3.0.0, or for none.
  pub run-new_instance :
      (project_ver : Bytes) (noticed log_to_std_err : Bool) (log_path : Bytes) (ms : List Method)
      → outcome_status
          (run moved_from created ms (new_instance project_ver noticed log_to_std_err log_path).0)
        ≡ status_after starts ms fresh
  unfolding new_instance
  run-new_instance project_ver noticed log_to_std_err log_path ms =
      run-status_after ms (new_instance project_ver noticed log_to_std_err log_path).0 tt
