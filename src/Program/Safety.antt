-- ===== src/Program/Safety.antt =====
-- Sequences of actions: the invariant of the parts together, and no call through a null pointer.
use mqtgcalls.Prelude.{
  ℕ, ◌≤◌, Bytes, Bool, true, false, List, [], ◌∷◌, Option, none, some, ◌≡◌, refl, inl, inr, arith,
  length, Option-cases, ℤ, if◌then◌else◌,
}
use mqtgcalls.Host.{Event}
use mqtgcalls.Host.Files.{FileApi, Heap}
use mqtgcalls.FileAudioDevice.Calls as FileCalls
use mqtgcalls.FileAudioDevice.Control as FileControl
use mqtgcalls.FileAudioDevice.Invariant as FileInvariant
use mqtgcalls.RawAudioDevice.Calls as RawCalls
use mqtgcalls.RawAudioDevice.Control as RawControl
use mqtgcalls.RawAudioDevice.Invariant as RawInvariant
use mqtgcalls.WrappedAudioDeviceModule.{create_file, create_raw}
use mqtgcalls.FileAudioDevice.Defs as FileDefs
use mqtgcalls.RawAudioDevice.Defs as RawDefs
use mqtgcalls.NativeInstance.Defs.{
  Factory, file_factory, raw_factory, platform_factory, GroupDescriptor, CallDescriptor,
  NativeInstance, Effect,
}
use mqtgcalls.NativeInstance.Group.{GroupCall, group_of, create_audio_device_module}
use mqtgcalls.NativeInstance.Call.{version}
use mqtgcalls.NativeInstance.Methods.{Method, calls_group}
use mqtgcalls.NativeInstance.Protocol.{
  HasOne, step-HasOne, step-next_status, outcome_status, OutcomeHasOne,
}
use mqtgcalls.Program.{
  Device, file_device, raw_device, Program, Opening, Action, python, makes_adm, on_file, on_raw,
  make_for, destroyed, is_none, on_module, make_device, make_adm, call_file, call_raw, with_adm,
  after_method, after_step, act, run,
}
use mqtgcalls.Program.Attached.{
  file_step-attached, file_perform-attached, raw_step-attached, raw_perform-attached,
}
use mqtgcalls.Program.Modules.{file_perform-Inv, raw_perform-Inv}
use mqtgcalls.Program.Invariant.{
  Sound, ProgramInv, SameGroup, step-SameGroup, Sound-SameGroup, Readies, MayMake, FileAllowed,
  RawAllowed, Allowed, SoundOutcome,
}

module _ {File : Type 0} (api : FileApi File) (heap : Heap)
    (read_fits : (f : File) (n : ℕ) → length (api.read f n).0 ≤ n) (moved_from : Bytes → Bytes)
    (created : Bytes → CallDescriptor → Bool) (starts : Bool)
    (library : (d : CallDescriptor) → created version d ≡ starts) where
  abbrev SoundModule : Option GroupDescriptor → Option (Option (Device File) × List Event) → Type 0
  SoundModule group none = ⊥
  SoundModule group (some (adm, es)) = Sound group adm

  on_module-Sound :
      (o : Opening File) (c : GroupCall) (group : Option GroupDescriptor)
      (adm : Option (Device File))
      → Readies (calls_group c) adm
      → Sound group adm
      → SoundModule group (on_module api heap o c adm)
  unfolding on_module
  on_module-Sound o c group none ready h = tt
  on_module-Sound o c group (some (file_device (some ref) d)) ready h =
      rw (file_perform-attached api heap o c d h.3) (
        h.0,
        refl,
        file_perform-Inv api heap read_fits o c d ready h.2,
        file_perform-attached api heap o c d h.3,
      )
  on_module-Sound o c group (some (file_device none d)) ready h = cc
  on_module-Sound o c group (some (raw_device ref d)) ready h =
      rw (raw_perform-attached heap c d h.3)
        (h.0, h.1, raw_perform-Inv heap c d ready h.2, raw_perform-attached heap c d h.3)

  call_file-Sound :
      (c : FileCalls.Call File) (group : Option GroupDescriptor) (adm : Option (Device File))
      → FileAllowed c adm
      → Sound group adm
      → SoundModule group (call_file api heap c adm)
  unfolding call_file FileCalls.checked_step
  call_file-Sound c group none allowed h = tt
  call_file-Sound c group (some (file_device (some ref) d)) allowed h =
      rw (file_step-attached api heap c d h.3) (
        h.0,
        refl,
        FileInvariant.step-Inv api heap read_fits c d allowed h.2,
        file_step-attached api heap c d h.3,
      )
  call_file-Sound c group (some (file_device none d)) allowed h = cc
  call_file-Sound c group (some (raw_device ref d)) allowed h = h

  call_raw-Sound :
      (c : RawCalls.Call) (group : Option GroupDescriptor) (adm : Option (Device File))
      → RawAllowed c adm
      → Sound group adm
      → SoundModule group (call_raw api heap c adm)
  unfolding call_raw RawCalls.checked_step
  call_raw-Sound c group none allowed h = tt
  call_raw-Sound c group (some (raw_device (some ref) d)) allowed h =
      rw (raw_step-attached heap c d h.3)
        (h.0, refl, RawInvariant.step-Inv heap c d allowed h.2, raw_step-attached heap c d h.3)
  call_raw-Sound c group (some (raw_device none d)) allowed h = cc
  call_raw-Sound c group (some (file_device ref d)) allowed h = h

  make_device-Sound :
      (g : GroupDescriptor) (s : NativeInstance) (platform status p r : ℤ)
      → MayMake (some g) s
      → Sound (some g) (
          make_device api heap g.create_audio_device_module
            (create_audio_device_module s g.create_audio_device_module).0
            platform
            status
            p
            r)
  unfolding make_device create_audio_device_module create_file create_raw
      FileControl.attach_audio_buffer RawControl.attach_audio_buffer FileDefs.new_device
      RawDefs.new_device
  make_device-Sound g s platform status p r there = ground arith

  factory_group :
      (f : Factory) (s : NativeInstance) → group_of (create_audio_device_module s f).1 ≡ group_of s
  unfolding group_of create_audio_device_module
  factory_group file_factory s = refl
  factory_group raw_factory s = refl
  factory_group platform_factory s = refl

  factory-HasOne :
      (f : Factory) (s : NativeInstance) → HasOne s → HasOne (create_audio_device_module s f).1
  unfolding create_audio_device_module
  factory-HasOne file_factory s one = one
  factory-HasOne raw_factory s one = one
  factory-HasOne platform_factory s one = one

  make_for-ProgramInv :
      (group : Option GroupDescriptor) (platform status p r : ℤ) (program : Program File)
      → group_of program.native ≡ group
      → MayMake group program.native
      → ProgramInv program
      → ProgramInv (make_for api heap group platform status p r program)
  make_for-ProgramInv none platform status p r program e may v = v
  make_for-ProgramInv (some g) platform status p r program e may v =
      let f = g.create_audio_device_module in
      (
        factory-HasOne f program.native v.0,
        rw (factory_group f program.native, e)
            (make_device-Sound g program.native platform status p r may),
      )

  with_adm-SoundOutcome :
      (native : NativeInstance) (r : Option (Option (Device File) × List Event))
      → HasOne native
      → SoundModule (group_of native) r
      → SoundOutcome (with_adm api heap native r)
  with_adm-SoundOutcome native none one h = h
  with_adm-SoundOutcome native (some (adm, es)) one h = (one, h)

  Readies-none : (m : Method) → Readies {File = File} m none
  Readies-none (calls_group c) = tt
  Readies-none _ = tt

  after_method-SoundOutcome :
      (o : Opening File) (m : Method) (native : NativeInstance) (adm : Option (Device File))
      → HasOne native
      → Readies m adm
      → Sound (group_of native) adm
      → SoundOutcome (after_method api heap o m native adm)
  after_method-SoundOutcome o (calls_group c) native adm one ready h =
      with_adm-SoundOutcome native (on_module api heap o c adm) one
        (on_module-Sound o c (group_of native) adm ready h)
  after_method-SoundOutcome o _ native adm one ready h = (one, h)

  Readies-if :
      (m : Method) (b : Bool) (adm : Option (Device File))
      → Readies m adm
      → Readies m (if b then none else adm)
  Readies-if m true adm ready = Readies-none m
  Readies-if m false adm ready = ready

  after_step-SoundOutcome :
      (o : Opening File) (m : Method) (p : Program File) (r : Option (NativeInstance × List Effect))
      → OutcomeHasOne r
      → SameGroup moved_from created p.native r
      → is_none (outcome_status r) ≡ false
      → Readies m p.adm
      → Sound (group_of p.native) p.adm
      → SoundOutcome (after_step api heap o m p.adm r)
  after_step-SoundOutcome o m p none one same steps ready h = cc
  after_step-SoundOutcome o m p (some (s, es)) one same steps ready h =
      after_method-SoundOutcome o m s _ one (Readies-if m (destroyed es) p.adm ready)
        (Sound-SameGroup moved_from created p.native (s, es) p.adm same h)

  act-SoundOutcome :
      (a : Action File) (p : Program File)
      → Allowed starts p a
      → ProgramInv p
      → SoundOutcome (act api heap moved_from created a p)
  unfolding act make_adm
  act-SoundOutcome (makes_adm platform status playout_index record_index) p allowed v =
      make_for-ProgramInv _ platform status playout_index record_index p refl allowed v
  act-SoundOutcome (on_file c) p allowed v =
      with_adm-SoundOutcome p.native _ v.0 (call_file-Sound c _ p.adm allowed v.1)
  act-SoundOutcome (on_raw c) p allowed v =
      with_adm-SoundOutcome p.native _ v.0 (call_raw-Sound c _ p.adm allowed v.1)
  act-SoundOutcome (python o m) p allowed v =
      after_step-SoundOutcome o m p _ (step-HasOne moved_from created starts library m p.native v.0)
        (step-SameGroup moved_from created m p.native)
        (rw (step-next_status moved_from created starts library m p.native v.0) allowed.0) allowed.2
        v.1

  -- Each action is allowed in the state that the actions before it leave.
  abbrev pub AllAllowed : Program File → List (Action File) → Type 0
  AllAllowed p [] = Unit
  AllAllowed p (a ∷ rest) = Allowed starts p a × elim (act api heap moved_from created a p) [
    | none ↦ Unit
    | some (p', es) ↦ AllAllowed p' rest
  ]

  -- No sequence of actions on the object, its module and its device makes a call through a null
  -- pointer, to the descriptor of a device, to the transport of a device, also in the rounds of
  -- its threads, or to an instance, and each keeps the invariant of the parts together: the
  -- holder has one instance at most, a device is there only with the group instance whose factory
  -- made it, it has a descriptor and a transport and keeps its own invariant. It holds from any
  -- state with that invariant, if a read returns no more bytes than were asked for, the library
  -- makes an instance of version 3.0.0 for every descriptor or for none, and each action is
  -- allowed: Python calls a method where the machine of Protocol has a step, and starts a call
  -- with a descriptor that is not null; the library has the factory make a module while the
  -- descriptor is there; recording is started only where it is initialized and does not run; the
  -- transport gives at most 1920 bytes of playout.
  pub run-SoundOutcome :
      (actions : List (Action File)) (p : Program File)
      → AllAllowed p actions
      → ProgramInv p
      → SoundOutcome (run api heap moved_from created actions p)
  unfolding run
  run-SoundOutcome [] p allowed v = v
  run-SoundOutcome (a ∷ rest) p allowed v =
      elim (Option-cases (act api heap moved_from created a p)) [
        | inl fault ↦ ground (arith, act-SoundOutcome a p allowed.0 v)
        | inr ((p', es), e) ↦ ground (
          arith,
          run-SoundOutcome rest p' (rw e at allowed.1) (rw e at (act-SoundOutcome a p allowed.0 v)),
        )
      ]
