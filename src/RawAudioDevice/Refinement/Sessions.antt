-- ===== src/RawAudioDevice/Refinement/Sessions.antt =====
-- Whole sequences of calls of a raw device (src/RawAudioDevice.cpp) as executions of `Joint`.
use mqtgcalls.Prelude.{ℕ, List, [], ◌∷◌, ◌≡◌, refl, arith}
use mqtgcalls.Host.Files.{Heap}
use mqtgcalls.FileAudioDevice.Joint.Trace.{JointTrace, done, JointTrace-append, JointTrace-eq}
use mqtgcalls.RawAudioDevice.Defs.{RawAudioDevice}
use mqtgcalls.RawAudioDevice.Control.{set_playout_device, set_recording_device}
use mqtgcalls.RawAudioDevice.Calls.{
  Call, selects_playout, selects_recording, attaches, inits_playout, inits_recording,
  starts_playout, starts_recording, stops_playout, stops_recording, plays, records, step, run,
}
use mqtgcalls.RawAudioDevice.Invariant.{Inv, Permitted, AllPermitted, step-Inv}
use mqtgcalls.RawAudioDevice.Refinement.{joint_of}
use mqtgcalls.RawAudioDevice.Refinement.Rounds.{plays-JointTrace, records-JointTrace}
use mqtgcalls.RawAudioDevice.Refinement.Calls.{
  starts_playout-JointTrace, starts_recording-JointTrace, stops_playout-JointTrace,
  stops_recording-JointTrace, inits_playout-JointTrace, inits_recording-JointTrace,
  attaches-JointTrace,
}

selects_playout-JointTrace :
    (n : ℕ) (d : RawAudioDevice)
    → ([] ≡ (set_playout_device n d).2) × (joint_of d ≡ joint_of (set_playout_device n d).1)
unfolding set_playout_device
selects_playout-JointTrace n d = ground arith

selects_recording-JointTrace :
    (n : ℕ) (d : RawAudioDevice)
    → ([] ≡ (set_recording_device n d).2) × (joint_of d ≡ joint_of (set_recording_device n d).1)
unfolding set_recording_device
selects_recording-JointTrace n d = ground arith

module _ (heap : Heap) where
  step-JointTrace :
      (c : Call) (d : RawAudioDevice)
      → Permitted d c
      → Inv d
      → JointTrace (step heap c d).2 (joint_of d) (joint_of (step heap c d).1)
  unfolding step
  step-JointTrace (selects_playout n) d o v =
      let (silent, rests) = selects_playout-JointTrace n d in JointTrace-eq done silent refl rests
  step-JointTrace (selects_recording n) d o v =
      let (silent, rests) = selects_recording-JointTrace n d in JointTrace-eq done silent refl rests
  step-JointTrace attaches d o v = attaches-JointTrace d
  step-JointTrace inits_playout d o v = inits_playout-JointTrace d
  step-JointTrace inits_recording d o v = inits_recording-JointTrace d
  step-JointTrace starts_playout d o v = starts_playout-JointTrace heap d v
  step-JointTrace starts_recording d o v = starts_recording-JointTrace heap d v o.0
  step-JointTrace stops_playout d o v = stops_playout-JointTrace d
  step-JointTrace stops_recording d o v = stops_recording-JointTrace d
  step-JointTrace (plays t) d o v = plays-JointTrace t d v
  step-JointTrace (records t) d o v = records-JointTrace t d v

  -- Let a raw device keep its invariant, and every call of a sequence be permitted: recording is
  -- started only where it is initialized and does not run, and the transport gives at most 1920
  -- bytes of playout. Then the sequence is an execution of the interleaved system of the two
  -- threads, their caller and the mutex, from the state that the device stands for to the one
  -- that the device after the calls stands for, and its moves together make the calls of the
  -- sequence to the transport, the callbacks, the mutex and the threads, in their order.
  pub raw_run-JointTrace :
      (cs : List Call) (d : RawAudioDevice)
      → AllPermitted heap d cs
      → Inv d
      → JointTrace (run heap cs d).2 (joint_of d) (joint_of (run heap cs d).1)
  unfolding run
  raw_run-JointTrace [] d p v = done
  raw_run-JointTrace (c ∷ cs) d p v =
      JointTrace-append (step-JointTrace c d p.0 v)
        (raw_run-JointTrace cs (step heap c d).1 p.1 (step-Inv heap c d p.0 v))
