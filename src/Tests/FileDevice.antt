-- ===== src/Tests/FileDevice.antt =====
-- The calls of a file device.
use mqtgcalls.Prelude.{
  ℕ, ◌≡◌, refl, ◌⊎◌, ◌≤◌, ◌++◌, true, false, List, [], ◌∷◌, some, pos, minus_one, arith,
  length-replicate, length, length-take,
}
use mqtgcalls.Host.MemFile.{MemFile, mem_api, mem_heap, mem_file}
use mqtgcalls.Host.Locking.{KeepsDiscipline}
use mqtgcalls.FileAudioDevice.Defs.{
  FileAudioDevice, new_device, playout_buffer_size, recording_buffer_size,
}
use mqtgcalls.FileAudioDevice.Control.{
  attach_audio_buffer, init_playout, init_recording, start_playout, start_recording,
}
use mqtgcalls.FileAudioDevice.Threads.{play_thread_process}
use mqtgcalls.FileAudioDevice.Devices.{playout_device_name}
use mqtgcalls.FileAudioDevice.Calls.{
  Call, attaches, inits_playout, inits_recording, starts_playout, starts_recording, plays, records,
  stops_playout, stops_recording, step, run,
}
use mqtgcalls.FileAudioDevice.Invariant.{Inv, AllPermitted, new_device-Inv, run-Inv}
use mqtgcalls.Host.Resources.{nothing, spend_from}
use mqtgcalls.FileAudioDevice.Resources.{held, run-KeepsRules, session_frees_all}
use mqtgcalls.FileAudioDevice.Locking.{run-KeepsDiscipline}
use mqtgcalls.FileAudioDevice.Lifecycle.{
  PlayoutStopped, RecordingStopped, opens, start_playout_result, start_recording_result,
}
use mqtgcalls.FileAudioDevice.Naming.{Named, playout_device_name-Named}
use mqtgcalls.FileAudioDevice.Joint.Trace.{JointTrace}
use mqtgcalls.FileAudioDevice.Refinement.{joint_of}
use mqtgcalls.FileAudioDevice.Refinement.Sessions.{AllLive, gone_at_end, run-JointTrace}
use mqtgcalls.Tests.{once, busy, stopped, round, silence}

abbrev song : MemFile
song = mem_file (1 ∷ 2 ∷ 3 ∷ [])

abbrev session : List (Call MemFile)
session =
    attaches
    ∷ inits_playout
    ∷ starts_playout (mem_file []) once
    ∷ plays (round once 5 8)
    ∷ inits_recording
    ∷ starts_recording song once
    ∷ records (round once 5 8)
    ∷ stops_playout
    ∷ []

abbrev fresh : FileAudioDevice MemFile
fresh = new_device mem_api (pos 7) (pos 0)

pub mem_read_fits : (f : MemFile) (n : ℕ) → length (mem_api.read f n).0 ≤ n
mem_read_fits f n = omega (arith, length-take n f.unread)

silence_fits : length silence ≤ playout_buffer_size
silence_fits = omega (arith, length-replicate {A = ℕ} 1920 0)

session_permitted : AllPermitted mem_api mem_heap fresh session
unfolding step init_recording play_thread_process start_playout init_playout attach_audio_buffer
    new_device
session_permitted = (tt, (tt, (tt, (silence_fits, (tt, ((refl, refl), (tt, (tt, tt))))))))

run-Inv_example : Inv (run mem_api mem_heap session fresh).1
run-Inv_example =
    run-Inv mem_api mem_heap mem_read_fits session fresh session_permitted
      (new_device-Inv mem_api mem_heap (pos 7) (pos 0))

run-KeepsDiscipline_example : KeepsDiscipline (run mem_api mem_heap session fresh).2
run-KeepsDiscipline_example = run-KeepsDiscipline mem_api mem_heap session fresh

run-KeepsRules_example :
    spend_from (some (held fresh)) (run mem_api mem_heap session fresh).2
    ≡ some (held (run mem_api mem_heap session fresh).1)
run-KeepsRules_example =
    run-KeepsRules mem_api mem_heap mem_read_fits session fresh session_permitted
      (new_device-Inv mem_api mem_heap (pos 7) (pos 0))

-- The session leaves the recording side at work, for the last two stops.
session_frees_all_example :
    spend_from
      (some nothing)
      (run mem_api mem_heap (session ++ (stops_playout ∷ stops_recording ∷ [])) fresh).2
    ≡ some nothing
session_frees_all_example =
    session_frees_all mem_api mem_heap mem_read_fits (pos 7) (pos 0) session session_permitted

busy-Inv : Inv (busy song)
busy-Inv = record {
  play_buffer = length-replicate 1920 0;
  play_thread = refl;
  rec_buffer = length-replicate 1920 0;
  rec_thread = refl;
  rec_initialized = refl;
}

start_playout_result_example :
    let r = start_playout mem_api mem_heap mem_api.not_opened once stopped in
    ((opens mem_api mem_heap once.output_filename mem_api.not_opened ≡ true)
      × (r.0 ≡ pos 0)
      × (r.1.playing ≡ true)
      × (r.1.thread_play ≡ true)
      × (r.1.playout_buffer ≡ some (mem_heap.alloc playout_buffer_size)))
    ⊎ ((opens mem_api mem_heap once.output_filename mem_api.not_opened ≡ false)
        × (r.0 ≡ minus_one)
        × PlayoutStopped mem_api mem_heap r.1)
start_playout_result_example =
    start_playout_result mem_api mem_heap mem_api.not_opened once stopped
      (record { idle = refl; no_thread = refl; no_buffer = refl; no_frames = refl })

start_recording_result_example :
    let r = start_recording mem_api mem_heap song once stopped in
    ((opens mem_api mem_heap once.input_filename song ≡ true)
      × (r.0 ≡ pos 0)
      × (r.1.recording ≡ true)
      × (r.1.thread_rec ≡ true)
      × (r.1.recording_buffer ≡ some (mem_heap.alloc recording_buffer_size)))
    ⊎ ((opens mem_api mem_heap once.input_filename song ≡ false)
        × (r.0 ≡ minus_one)
        × RecordingStopped mem_api mem_heap r.1)
start_recording_result_example =
    start_recording_result mem_api mem_heap song once stopped
      (record { idle = refl; no_thread = refl; no_buffer = refl; no_frames = refl }) refl

playout_device_name-Named_example : Named 4 0 [] [] (playout_device_name 20 4 0 [] [])
playout_device_name-Named_example = playout_device_name-Named 20 4 0 [] []

-- The file that does not open leaves the device stopped.
start_playout_fails : (start_playout mem_api mem_heap mem_api.not_opened once stopped).0 ≡ minus_one
unfolding start_playout
start_playout_fails = refl

session_live : AllLive mem_api mem_heap false fresh session
session_live = (tt, (tt, (tt, (tt, (tt, (tt, (refl, (tt, tt))))))))

run-JointTrace_example : JointTrace (run mem_api mem_heap session fresh).2 (joint_of false fresh) (
    joint_of
      (gone_at_end mem_api mem_heap false session fresh)
      (run mem_api mem_heap session fresh).1)
run-JointTrace_example =
    run-JointTrace mem_api mem_heap mem_read_fits false session fresh session_permitted session_live
      (new_device-Inv mem_api mem_heap (pos 7) (pos 0))
