-- ===== src/FileAudioDevice/Locking.antt =====
-- The use of `mutex_` in src/FileAudioDevice.cpp.
use mqtgcalls.Prelude.{true, false, List, [], ◌∷◌, ◌≡◌, refl, some, arith}
use mqtgcalls.Host.Files.{FileApi, Heap}
use mqtgcalls.Host.Locking.{KeepsDiscipline, guarded_from, guarded_from-append}
use mqtgcalls.FileAudioDevice.Defs.{FileAudioDevice}
use mqtgcalls.FileAudioDevice.Control.{
  set_playout_device, set_recording_device, init_playout, init_recording, attach_audio_buffer,
  start_playout, stop_playout, start_recording, stop_recording,
}
use mqtgcalls.FileAudioDevice.Threads.{
  Tick, play_thread_process, rec_thread_process, record_block, end_round,
}
use mqtgcalls.FileAudioDevice.Calls.{Call, records, step, run}

module _ {File : Type 0} (api : FileApi File) (heap : Heap) where
  record_block-guarded :
      (t : Tick) (d : FileAudioDevice File)
      → guarded_from (some true) (record_block api t d).2 ≡ some false
  unfolding record_block guarded_from
  record_block-guarded t d = ground arith

  rec_thread_process-KeepsDiscipline :
      (t : Tick) (d : FileAudioDevice File) → KeepsDiscipline (rec_thread_process api t d).2
  unfolding rec_thread_process end_round guarded_from
  rec_thread_process-KeepsDiscipline t d = ground (arith, record_block-guarded t d)

  pub step-KeepsDiscipline :
      (c : Call File) (d : FileAudioDevice File) → KeepsDiscipline (step api heap c d).2
  unfolding step init_playout init_recording attach_audio_buffer start_playout stop_playout
      start_recording stop_recording set_playout_device set_recording_device play_thread_process
      guarded_from
  step-KeepsDiscipline (records t) d = ground (arith, rec_thread_process-KeepsDiscipline t d)
  step-KeepsDiscipline _ d = ground arith

  -- Any sequence of calls of a file device, from any state, uses its mutex by the rules and
  -- leaves it free: it is never locked twice nor unlocked while free; the transport, a join and a
  -- sleep find it free; each read, write, rewind and transfer of audio happens with it held.
  pub run-KeepsDiscipline :
      (cs : List (Call File)) (d : FileAudioDevice File) → KeepsDiscipline (run api heap cs d).2
  unfolding run guarded_from
  run-KeepsDiscipline [] d = refl
  run-KeepsDiscipline (c ∷ cs) d =
      rw
        (
          guarded_from-append (some false) (step api heap c d).2
              (run api heap cs (step api heap c d).1).2,
          step-KeepsDiscipline c d,
        )
        (run-KeepsDiscipline cs (step api heap c d).1)
