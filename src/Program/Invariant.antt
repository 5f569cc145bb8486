-- ===== src/Program/Invariant.antt =====
-- What is to hold of the parts together between two actions.
use mqtgcalls.Prelude.{
  Bytes, Bool, true, false, List, Option, none, some, ◌≡◌, ◌⊎◌, arith, if◌then◌else◌,
}
use mqtgcalls.Host.{Event}
use mqtgcalls.FileAudioDevice.Calls as FileCalls
use mqtgcalls.FileAudioDevice.Invariant as FileInvariant
use mqtgcalls.RawAudioDevice.Calls as RawCalls
use mqtgcalls.RawAudioDevice.Invariant as RawInvariant
use mqtgcalls.NativeInstance.Defs.{
  Factory, file_factory, raw_factory, platform_factory, GroupDescriptor, CallDescriptor,
  NativeInstance, Effect,
}
use mqtgcalls.NativeInstance.Group.{
  group_of, setup_group_call, create_instance_holder, start_group_call_file, start_group_call_raw,
  start_group_call_platform, stop_group_call, group_call,
}
use mqtgcalls.NativeInstance.Call.{
  start_call, receive_signaling, set_signaling_data_emitted_callback,
}
use mqtgcalls.NativeInstance.Methods as Methods
use mqtgcalls.NativeInstance.Methods.{
  Method, setups_group_call, starts_file_call, starts_raw_call, starts_platform_call,
  stops_group_call, calls_group, starts_call, receives_signaling, sets_signaling_callback,
}
use mqtgcalls.NativeInstance.Protocol.{HasOne, status_of, next_status}
use mqtgcalls.Program.{
  Device, file_device, raw_device, Program, Action, python, makes_adm, on_file, on_raw, destroyed,
  is_none,
}
use mqtgcalls.Program.Modules.{ReadyFor}

-- The group instance was made with this factory.
abbrev pub MadeBy : Factory → Option GroupDescriptor → Type 0
MadeBy f none = ⊥
MadeBy f (some g) = g.create_audio_device_module ≡ f

-- A device is there only with the group instance whose factory made it; it has a descriptor and a
-- transport, and keeps its invariant.
abbrev pub Sound : {File : Type 0} → Option GroupDescriptor → Option (Device File) → Type 0
Sound group none = Unit
Sound group (some (file_device ref d)) =
    MadeBy file_factory group
    × (is_none ref ≡ false)
    × FileInvariant.Inv d
    × (d.audio_buffer ≡ true)
Sound group (some (raw_device ref d)) =
    MadeBy raw_factory group × (is_none ref ≡ false) × RawInvariant.Inv d × (d.audio_buffer ≡ true)

abbrev pub ProgramInv : {File : Type 0} → Program File → Type 0
ProgramInv p = HasOne p.native × Sound (group_of p.native) p.adm

module _ (moved_from : Bytes → Bytes) (created : Bytes → CallDescriptor → Bool) where
  -- A method that destroys no group instance leaves the one there is, or makes the first.
  abbrev pub SameGroup : NativeInstance → Option (NativeInstance × List Effect) → Type 0
  SameGroup s none = Unit
  SameGroup s (some (s', es)) =
      (destroyed es ≡ true) ⊎ ((group_of s ≡ none) ⊎ (group_of s' ≡ group_of s))

  pub step-SameGroup :
      (m : Method) (s : NativeInstance) → SameGroup s (Methods.step moved_from created m s)
  unfolding Methods.step setup_group_call create_instance_holder start_group_call_file
      start_group_call_raw start_group_call_platform stop_group_call group_call start_call
      receive_signaling set_signaling_data_emitted_callback group_of
  step-SameGroup (setups_group_call emit state bitrate) s = ground arith
  step-SameGroup _ s = ground arith

  pub Sound-SameGroup :
      {File : Type 0} (s : NativeInstance) (r : NativeInstance × List Effect)
      (adm : Option (Device File))
      → SameGroup s (some r)
      → Sound (group_of s) adm
      → Sound (group_of r.0) (if destroyed r.1 then none else adm)
  Sound-SameGroup s r none same h = ground arith
  Sound-SameGroup s r (some (file_device ref d)) same h = ground arith
  Sound-SameGroup s r (some (raw_device ref d)) same h = ground arith

-- What the library keeps to: it asks the factory for a module while the descriptor is there, starts
-- a side only where it is initialized, recording only where it does not run; and Python calls a
-- method only where the machine of `Protocol` has a step, and starts a call with a descriptor.
abbrev pub GivesDescriptor : Method → Type 0
GivesDescriptor (starts_file_call descriptor) = is_none descriptor ≡ false
GivesDescriptor (starts_raw_call descriptor) = is_none descriptor ≡ false
GivesDescriptor _ = Unit

abbrev pub Readies : {File : Type 0} → Method → Option (Device File) → Type 0
Readies (calls_group c) (some (file_device ref d)) =
    ReadyFor c d.recording d.recording_frames_in_10ms
Readies (calls_group c) (some (raw_device ref d)) =
    ReadyFor c d.recording d.recording_frames_in_10ms
Readies _ _ = Unit

abbrev pub MayMake : Option GroupDescriptor → NativeInstance → Type 0
MayMake none s = Unit
MayMake (some g) s = elim g.create_audio_device_module [
  | file_factory ↦ is_none s.file_audio_device_descriptor ≡ false
  | raw_factory ↦ is_none s.raw_audio_device_descriptor ≡ false
  | platform_factory ↦ Unit
]

abbrev pub FileAllowed : {File : Type 0} → FileCalls.Call File → Option (Device File) → Type 0
FileAllowed c (some (file_device ref d)) = FileInvariant.Permitted d c
FileAllowed c _ = Unit

abbrev pub RawAllowed : {File : Type 0} → RawCalls.Call → Option (Device File) → Type 0
RawAllowed c (some (raw_device ref d)) = RawInvariant.Permitted d c
RawAllowed c _ = Unit

abbrev pub Allowed : {File : Type 0} → (starts : Bool) → Program File → Action File → Type 0
Allowed starts p (python o m) =
    (is_none (next_status starts m (status_of p.native)) ≡ false)
    × GivesDescriptor m
    × Readies m p.adm
Allowed starts p (makes_adm platform status playout_index record_index) =
    MayMake (group_of p.native) p.native
Allowed starts p (on_file c) = FileAllowed c p.adm
Allowed starts p (on_raw c) = RawAllowed c p.adm

-- An outcome that is no fault, with the invariant.
abbrev pub SoundOutcome : {File : Type 0} → Option (Program File × List Event) → Type 0
SoundOutcome none = ⊥
SoundOutcome (some (p, es)) = ProgramInv p
