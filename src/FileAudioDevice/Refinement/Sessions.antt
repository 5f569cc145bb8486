-- ===== src/FileAudioDevice/Refinement/Sessions.antt =====
-- Whole sequences of calls of a file device (src/FileAudioDevice.cpp) as executions of `Joint`.
use mqtgcalls.Prelude.{ℕ, ◌≤◌, Bool, false, List, [], ◌∷◌, ◌≡◌, refl, arith, not, ◌&&◌, length, ℤ}
use mqtgcalls.Host.Files.{FileApi, Heap}
use mqtgcalls.FileAudioDevice.Defs.{FileAudioDevice, new_device}
use mqtgcalls.FileAudioDevice.Control.{set_playout_device, set_recording_device}
use mqtgcalls.FileAudioDevice.Threads.{rec_thread_process}
use mqtgcalls.FileAudioDevice.Calls.{
  Call, selects_playout, selects_recording, attaches, inits_playout, inits_recording,
  starts_playout, starts_recording, stops_playout, stops_recording, plays, records, step, run,
}
use mqtgcalls.FileAudioDevice.Invariant.{Inv, Permitted, AllPermitted, step-Inv, new_device-Inv}
use mqtgcalls.FileAudioDevice.Joint.{JointReach, start}
use mqtgcalls.FileAudioDevice.Joint.Trace.{
  JointTrace, done, JointTrace-append, JointTrace-eq, JointTrace-JointReach,
}
use mqtgcalls.FileAudioDevice.Refinement.{joint_of}
use mqtgcalls.FileAudioDevice.Refinement.Rounds.{plays-JointTrace, records-JointTrace}
use mqtgcalls.FileAudioDevice.Refinement.Calls.{
  starts_playout-JointTrace, starts_recording-JointTrace, stops_playout-JointTrace,
  stops_recording-JointTrace,
}
use mqtgcalls.FileAudioDevice.Refinement.Formats.{
  inits_playout-JointTrace, inits_recording-JointTrace, attaches-JointTrace,
}

-- A recording thread that has returned runs no round.
abbrev pub IsLive : {File : Type 0} → Bool → Call File → Type 0
IsLive gone (records t) = gone ≡ false
IsLive gone c = Unit

module _ {File : Type 0} (api : FileApi File) (heap : Heap) where
  -- Whether the recording thread has returned, after a call.
  abbrev pub gone_after : Bool → Call File → FileAudioDevice File → Bool
  gone_after gone (records t) d = d.recording && not (rec_thread_process api t d).0
  gone_after gone (starts_recording opened answers) d = false
  gone_after gone stops_recording d = false
  gone_after gone c d = gone

  abbrev pub gone_at_end : Bool → List (Call File) → FileAudioDevice File → Bool
  gone_at_end gone [] d = gone
  gone_at_end gone (c ∷ cs) d = gone_at_end (gone_after gone c d) cs (step api heap c d).1

  abbrev pub AllLive : Bool → FileAudioDevice File → List (Call File) → Type 0
  AllLive gone d [] = Unit
  AllLive gone d (c ∷ cs) = IsLive gone c × AllLive (gone_after gone c d) (step api heap c d).1 cs

  selects_playout-JointTrace :
      (gone : Bool) (n : ℕ) (d : FileAudioDevice File)
      → ([] ≡ (set_playout_device n d).2)
        × (joint_of gone d ≡ joint_of gone (set_playout_device n d).1)
  unfolding set_playout_device
  selects_playout-JointTrace gone n d = ground arith

  selects_recording-JointTrace :
      (gone : Bool) (n : ℕ) (d : FileAudioDevice File)
      → ([] ≡ (set_recording_device n d).2)
        × (joint_of gone d ≡ joint_of gone (set_recording_device n d).1)
  unfolding set_recording_device
  selects_recording-JointTrace gone n d = ground arith

  step-JointTrace :
      (gone : Bool) (c : Call File) (d : FileAudioDevice File)
      → Permitted d c
      → IsLive gone c
      → Inv d
      → JointTrace
          (step api heap c d).2
          (joint_of gone d)
          (joint_of (gone_after gone c d) (step api heap c d).1)
  unfolding step
  step-JointTrace gone (selects_playout n) d p l v =
      let (silent, rests) = selects_playout-JointTrace gone n d in
      JointTrace-eq done silent refl rests
  step-JointTrace gone (selects_recording n) d p l v =
      let (silent, rests) = selects_recording-JointTrace gone n d in
      JointTrace-eq done silent refl rests
  step-JointTrace gone attaches d p l v = attaches-JointTrace d gone
  step-JointTrace gone inits_playout d p l v = inits_playout-JointTrace d gone
  step-JointTrace gone inits_recording d p l v = inits_recording-JointTrace d gone
  step-JointTrace gone (starts_playout opened answers) d p l v =
      starts_playout-JointTrace api heap opened answers d gone v
  step-JointTrace gone (starts_recording opened answers) d p l v =
      starts_recording-JointTrace api heap opened answers d gone v p.0
  step-JointTrace gone stops_playout d p l v = stops_playout-JointTrace api heap d gone
  step-JointTrace gone stops_recording d p l v = stops_recording-JointTrace api heap d gone
  step-JointTrace gone (plays t) d p l v = plays-JointTrace api t d gone v
  step-JointTrace gone (records t) d p l v =
      JointTrace-eq (records-JointTrace api t d v) refl (rw l) refl

  module _ (read_fits : (f : File) (n : ℕ) → length (api.read f n).0 ≤ n) where
    -- Let reading give no more bytes than were asked for, the device keep the joint invariant,
    -- every call of a sequence be permitted, and no round of the recording thread be asked for
    -- once that thread has returned. Then the sequence, in which each call and each round is one
    -- step, is an execution of the interleaved system of the two threads, their caller and the
    -- mutex, from the state that the device stands for to the one that the device after the calls
    -- stands for, and its moves together make the calls of the sequence to the transport, the
    -- files, the mutex and the threads, in their order.
    pub run-JointTrace :
        (gone : Bool) (cs : List (Call File)) (d : FileAudioDevice File)
        → AllPermitted api heap d cs
        → AllLive gone d cs
        → Inv d
        → JointTrace
            (run api heap cs d).2
            (joint_of gone d)
            (joint_of (gone_at_end gone cs d) (run api heap cs d).1)
    unfolding run
    run-JointTrace gone [] d p l v = done
    run-JointTrace gone (c ∷ cs) d p l v = JointTrace-append (step-JointTrace gone c d p.0 l.0 v) (
        run-JointTrace (gone_after gone c d) cs (step api heap c d).1 p.1 l.1
          (step-Inv api heap read_fits c d p.0 v))

    -- A session of a new device ends in a state that the interleaved threads reach.
    session-JointReach :
        (playout_index record_index : ℤ) (cs : List (Call File))
        → AllPermitted api heap (new_device api playout_index record_index) cs
        → AllLive false (new_device api playout_index record_index) cs
        → JointReach (
            joint_of
              (gone_at_end false cs (new_device api playout_index record_index))
              (run api heap cs (new_device api playout_index record_index)).1)
    unfolding new_device
    session-JointReach playout_index record_index cs p l = JointTrace-JointReach start (
        run-JointTrace false cs (new_device api playout_index record_index) p l
          (new_device-Inv api heap playout_index record_index))
