-- ===== src/FileAudioDevice/Resources.antt =====
-- The threads and buffers of src/FileAudioDevice.cpp over whole sequences of calls.
use mqtgcalls.Prelude.{
  ◌≤◌, ℕ, some, true, false, List, [], ◌∷◌, ◌++◌, ◌≡◌, refl, ap, ◌∙◌, arith, length, not, ℤ,
}
use mqtgcalls.Host.Files.{FileApi, Heap}
use mqtgcalls.Host.Resources.{Held, nothing, spend_from, spend_from-append}
use mqtgcalls.FileAudioDevice.Defs.{FileAudioDevice, FileAudioDeviceDescriptor, new_device}
use mqtgcalls.FileAudioDevice.Control.{
  is_null, set_playout_device, set_recording_device, init_playout, init_recording,
  attach_audio_buffer, start_playout, stop_playout, start_recording, stop_recording,
}
use mqtgcalls.FileAudioDevice.Threads.{
  Tick, play_thread_process, rec_thread_process, record_block, end_round,
}
use mqtgcalls.FileAudioDevice.Calls.{
  Call, starts_playout, starts_recording, stops_playout, stops_recording, plays, records, step, run,
}
use mqtgcalls.FileAudioDevice.Invariant.{Inv, Permitted, AllPermitted, step-Inv, new_device-Inv}

-- What a device holds.
abbrev pub held : {File : Type 0} → FileAudioDevice File → Held
held d = record {
  play = record { thread = d.thread_play; buffer = not (is_null d.playout_buffer) };
  rec = record { thread = d.thread_rec; buffer = not (is_null d.recording_buffer) };
}

module _ {File : Type 0} (api : FileApi File) (heap : Heap) where
  abbrev KeepsRules : Call File → FileAudioDevice File → Type 0
  KeepsRules c d =
      spend_from (some (held d)) (step api heap c d).2 ≡ some (held (step api heap c d).1)

  start_playout-KeepsRules :
      (opened : File) (answers : FileAudioDeviceDescriptor) (d : FileAudioDevice File)
      → Inv d
      → KeepsRules (starts_playout opened answers) d
  unfolding step start_playout spend_from
  start_playout-KeepsRules opened answers d v = ground arith

  start_recording-KeepsRules :
      (opened : File) (answers : FileAudioDeviceDescriptor) (d : FileAudioDevice File)
      → Inv d
      → d.recording ≡ false
      → KeepsRules (starts_recording opened answers) d
  unfolding step start_recording spend_from
  start_recording-KeepsRules opened answers d v off = ground arith

  record_block-KeepsRules :
      (t : Tick) (d : FileAudioDevice File)
      → Inv d
      → d.recording ≡ true
      → spend_from (some (held d)) (record_block api t d).2 ≡ some (held (record_block api t d).1)
  unfolding record_block spend_from
  record_block-KeepsRules t d v on = ground arith

  record-KeepsRules : (t : Tick) (d : FileAudioDevice File) → Inv d → KeepsRules (records t) d
  unfolding step rec_thread_process end_round spend_from
  record-KeepsRules t d v = ground (arith, record_block-KeepsRules t d)

  play-KeepsRules : (t : Tick) (d : FileAudioDevice File) → Inv d → KeepsRules (plays t) d
  unfolding step play_thread_process spend_from
  play-KeepsRules t d v = ground arith

  step-KeepsRules :
      (c : Call File) (d : FileAudioDevice File) → Permitted d c → Inv d → KeepsRules c d
  unfolding step init_playout init_recording attach_audio_buffer stop_playout stop_recording
      set_playout_device set_recording_device spend_from
  step-KeepsRules (starts_playout opened answers) d p v =
      start_playout-KeepsRules opened answers d v
  step-KeepsRules (starts_recording opened answers) d p v =
      start_recording-KeepsRules opened answers d v p.0
  step-KeepsRules (records t) d p v = record-KeepsRules t d v
  step-KeepsRules (plays t) d p v = play-KeepsRules t d v
  step-KeepsRules _ d p v = ground arith

  AllPermitted-append :
      (cs ds : List (Call File)) (d : FileAudioDevice File)
      → AllPermitted api heap d cs
      → AllPermitted api heap (run api heap cs d).1 ds
      → AllPermitted api heap d (cs ++ ds)
  unfolding run
  AllPermitted-append [] ds d p q = q
  AllPermitted-append (c ∷ cs) ds d p q =
      (p.0, AllPermitted-append cs ds (step api heap c d).1 p.1 q)

  run-append :
      (cs ds : List (Call File)) (d : FileAudioDevice File)
      → (run api heap (cs ++ ds) d).1 ≡ (run api heap ds (run api heap cs d).1).1
  unfolding run
  run-append [] ds d = refl
  run-append (c ∷ cs) ds d = run-append cs ds (step api heap c d).1

  stops-freed :
      (d : FileAudioDevice File)
      → held (run api heap (stops_playout ∷ stops_recording ∷ []) d).1 ≡ nothing
  unfolding run step stop_playout stop_recording
  stops-freed d = ground arith

  session_end :
      (cs : List (Call File)) (d : FileAudioDevice File)
      → held (run api heap (cs ++ (stops_playout ∷ stops_recording ∷ [])) d).1 ≡ nothing
  session_end cs d =
      ap held (run-append cs (stops_playout ∷ stops_recording ∷ []) d)
      ∙ stops-freed (run api heap cs d).1

  module _ (read_fits : (f : File) (n : ℕ) → length (api.read f n).0 ≤ n) where
    -- Every sequence of calls of a file device uses its threads and buffers by the rules, and
    -- ends with those that the rules say it holds: a buffer is allocated where there is none and
    -- deleted where there is one, both with no thread that could use it; a thread is started
    -- where there is none, with its buffer, and joined where there is one; audio moves only on a
    -- thread, and through a buffer only where the buffer is there. The device keeps its invariant
    -- at the start; a read returns no more bytes than were asked for; recording is started only
    -- where it does not run and is initialized, and the transport gives at most 1920 bytes of
    -- playout.
    pub run-KeepsRules :
        (cs : List (Call File)) (d : FileAudioDevice File)
        → AllPermitted api heap d cs
        → Inv d
        → spend_from (some (held d)) (run api heap cs d).2 ≡ some (held (run api heap cs d).1)
    unfolding run spend_from
    run-KeepsRules [] d p v = refl
    run-KeepsRules (c ∷ cs) d p v =
        rw
          (
            spend_from-append (some (held d)) (step api heap c d).2
                (run api heap cs (step api heap c d).1).2,
            step-KeepsRules c d p.0 v,
          )
          (run-KeepsRules cs (step api heap c d).1 p.1 (step-Inv api heap read_fits c d p.0 v))

    -- Any sequence of calls of a new file device, followed by StopPlayout and StopRecording,
    -- leaves nothing behind: each thread that was started is joined and each buffer that was
    -- allocated is deleted, once, by the rules. A read returns no more bytes than were asked for;
    -- recording is started only where it does not run and is initialized, and the transport gives
    -- at most 1920 bytes of playout.
    pub session_frees_all :
        (playout_index record_index : ℤ) (cs : List (Call File))
        → AllPermitted api heap (new_device api playout_index record_index) cs
        → spend_from
            (some nothing)
            (run api heap
              (cs ++ (stops_playout ∷ stops_recording ∷ []))
              (new_device api playout_index record_index)).2
          ≡ some nothing
    session_frees_all playout_index record_index cs p =
        let device = new_device api playout_index record_index in
        unfold new_device in
        (run-KeepsRules (cs ++ (stops_playout ∷ stops_recording ∷ [])) device
            (AllPermitted-append cs _ device p (tt, (tt, tt)))
            (new_device-Inv api heap playout_index record_index)
          ∙ ap some (session_end cs device))
