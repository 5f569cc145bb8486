-- ===== src/RawAudioDevice/Locking.antt =====
-- The use of `mutex_` in src/RawAudioDevice.cpp.
use mqtgcalls.Prelude.{false, List, [], ◌∷◌, refl, some, arith}
use mqtgcalls.Host.Files.{Heap}
use mqtgcalls.Host.Locking.{KeepsDiscipline, guarded_from, guarded_from-append}
use mqtgcalls.RawAudioDevice.Defs.{RawAudioDevice}
use mqtgcalls.RawAudioDevice.Control.{
  set_playout_device, set_recording_device, init_playout, init_recording, attach_audio_buffer,
  start_playout, stop_playout, start_recording, stop_recording,
}
use mqtgcalls.RawAudioDevice.Threads.{play_thread_process, rec_thread_process}
use mqtgcalls.RawAudioDevice.Calls.{Call, selects_playout, step, run}

module _ (heap : Heap) where
  pub step-KeepsDiscipline : (c : Call) (d : RawAudioDevice) → KeepsDiscipline (step heap c d).2
  unfolding step set_playout_device set_recording_device init_playout init_recording
      attach_audio_buffer start_playout stop_playout start_recording stop_recording
      play_thread_process rec_thread_process guarded_from
  step-KeepsDiscipline (selects_playout index) d = ground arith
  step-KeepsDiscipline _ d = ground arith

  -- Any sequence of calls of a raw device, from any state, uses its mutex by the rules and leaves
  -- it free: it is never locked twice nor unlocked while free; the transport, a join and a sleep
  -- find it free; each transfer of audio, to and from the transport and the callbacks, happens
  -- with it held.
  pub raw_run-KeepsDiscipline :
      (cs : List Call) (d : RawAudioDevice) → KeepsDiscipline (run heap cs d).2
  unfolding run guarded_from
  raw_run-KeepsDiscipline [] d = refl
  raw_run-KeepsDiscipline (c ∷ cs) d =
      rw
        (
          guarded_from-append (some false) (step heap c d).2 (run heap cs (step heap c d).1).2,
          step-KeepsDiscipline c d,
        )
        (raw_run-KeepsDiscipline cs (step heap c d).1)
