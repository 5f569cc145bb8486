-- ===== src/RawAudioDevice/Resources.antt =====
-- The threads and buffers of src/RawAudioDevice.cpp over whole sequences of calls.
use mqtgcalls.Prelude.{some, List, [], ◌∷◌, ◌++◌, ◌≡◌, refl, ap, ◌∙◌, arith, not, ℤ}
use mqtgcalls.Host.Files.{Heap}
use mqtgcalls.Host.Resources.{Held, nothing, spend_from, spend_from-append}
use mqtgcalls.FileAudioDevice.Control.{is_null}
use mqtgcalls.RawAudioDevice.Defs.{RawAudioDevice, new_device}
use mqtgcalls.RawAudioDevice.Control.{
  set_playout_device, set_recording_device, init_playout, init_recording, attach_audio_buffer,
  start_playout, stop_playout, start_recording, stop_recording,
}
use mqtgcalls.RawAudioDevice.Threads.{play_thread_process, rec_thread_process}
use mqtgcalls.RawAudioDevice.Calls.{
  Call, selects_playout, stops_playout, stops_recording, step, run,
}
use mqtgcalls.RawAudioDevice.Invariant.{Inv, Permitted, AllPermitted, step-Inv, new_device-Inv}

-- What a device holds.
abbrev pub held : RawAudioDevice → Held
held d = record {
  play = record { thread = d.thread_play; buffer = not (is_null d.playout_buffer) };
  rec = record { thread = d.thread_rec; buffer = not (is_null d.recording_buffer) };
}

module _ (heap : Heap) where
  step-KeepsRules :
      (c : Call) (d : RawAudioDevice)
      → Permitted d c
      → Inv d
      → spend_from (some (held d)) (step heap c d).2 ≡ some (held (step heap c d).1)
  unfolding step set_playout_device set_recording_device init_playout init_recording
      attach_audio_buffer start_playout stop_playout start_recording stop_recording
      play_thread_process rec_thread_process spend_from
  step-KeepsRules (selects_playout index) d p v = ground arith
  step-KeepsRules _ d p v = ground arith

  pub raw_run-KeepsRules :
      (cs : List Call) (d : RawAudioDevice)
      → AllPermitted heap d cs
      → Inv d
      → spend_from (some (held d)) (run heap cs d).2 ≡ some (held (run heap cs d).1)
  unfolding run spend_from
  raw_run-KeepsRules [] d p v = refl
  raw_run-KeepsRules (c ∷ cs) d p v =
      rw
        (
          spend_from-append (some (held d)) (step heap c d).2 (run heap cs (step heap c d).1).2,
          step-KeepsRules c d p.0 v,
        )
        (raw_run-KeepsRules cs (step heap c d).1 p.1 (step-Inv heap c d p.0 v))

  -- Two more calls, which are always permitted.
  stops-permitted :
      (cs : List Call) (d : RawAudioDevice)
      → AllPermitted heap d cs
      → AllPermitted heap d (cs ++ (stops_playout ∷ stops_recording ∷ []))
  stops-permitted [] d p = (tt, (tt, tt))
  stops-permitted (c ∷ cs) d p = (p.0, stops-permitted cs (step heap c d).1 p.1)

  session_end :
      (cs : List Call) (d : RawAudioDevice)
      → held (run heap (cs ++ (stops_playout ∷ stops_recording ∷ [])) d).1 ≡ nothing
  unfolding run
  session_end [] d = unfold step stop_playout stop_recording in ground arith
  session_end (c ∷ cs) d = session_end cs (step heap c d).1

  -- Any sequence of calls of a new raw device, followed by StopPlayout and StopRecording, leaves
  -- nothing behind: each thread that was started is joined and each buffer that was allocated is
  -- deleted, once, by the rules. Recording is started only where it does not run and is
  -- initialized, and the transport gives at most 1920 bytes of playout.
  pub raw_session_frees_all :
      (playout_index record_index : ℤ) (cs : List Call)
      → AllPermitted heap (new_device playout_index record_index) cs
      → spend_from
          (some nothing)
          (run heap
            (cs ++ (stops_playout ∷ stops_recording ∷ []))
            (new_device playout_index record_index)).2
        ≡ some nothing
  raw_session_frees_all playout_index record_index cs p =
      let device = new_device playout_index record_index in
      let ps = stops-permitted cs device p in
      unfold new_device in
      (raw_run-KeepsRules (cs ++ (stops_playout ∷ stops_recording ∷ [])) device ps
          (new_device-Inv playout_index record_index)
        ∙ ap some (session_end cs device))
