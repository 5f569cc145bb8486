-- ===== src/Tests/RecThread.antt =====
-- The recording thread of a file device, step by step.
use mqtgcalls.Prelude.{true, false, ◌≡◌, refl, ◌≤◌}
use mqtgcalls.FileAudioDevice.Interleaving.{nobody, between, joining}
use mqtgcalls.FileAudioDevice.RecInterleaving.{
  looping, returned, RecSystem, RecorderMove, RecCallerMove, by_caller, RecReach, start, later,
}
use mqtgcalls.FileAudioDevice.RecInterleaving.Shutdown.{RecProgress, now, worked, rec_join_returns}

launched :
    RecReach (record {
      recording = true;
      buffer = true;
      mutex = nobody;
      worker = looping;
      caller = between;
    })
launched =
    later (later start (by_caller (RecCallerMove.starts refl refl)))
      (by_caller (RecCallerMove.launches refl))

abbrev waiting_now : RecSystem
waiting_now = record {
  recording = false;
  buffer = true;
  mutex = nobody;
  worker = looping;
  caller = joining;
}

waiting_reached : RecReach waiting_now
waiting_reached =
    later
      (later (later launched (by_caller (RecCallerMove.stops refl)))
        (by_caller (RecCallerMove.stop_locks refl refl)))
      (by_caller (RecCallerMove.marks refl))

rec_join_returns_example :
    ◌≤◌ 1 10
    × (waiting_now.recording ≡ false)
    × RecProgress (record waiting_now { worker = returned })
rec_join_returns_example =
    rec_join_returns waiting_now (record waiting_now { worker = returned }) 1 waiting_reached refl
      (worked now (RecorderMove.returns refl refl))
