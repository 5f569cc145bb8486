-- ===== src/Tests/Joint.antt =====
-- Both threads of a file device and their caller.
use mqtgcalls.Prelude.{true, false, ◌≡◌, refl, ◌⊎◌, inl}
use mqtgcalls.Host as Thread
use mqtgcalls.FileAudioDevice.Interleaving.{Worker, CallerMove, between, joining}
use mqtgcalls.FileAudioDevice.RecInterleaving.{Recorder, RecorderMove, RecCallerMove}
use mqtgcalls.FileAudioDevice.Joint.{
  free, by_recorder, by_others, Joint, JointReach, start, later, recorder_moves, caller_plays,
  caller_records,
}
use mqtgcalls.FileAudioDevice.Joint.Safety.{buffer_of, joint_safe}
use mqtgcalls.FileAudioDevice.Joint.Progress.{IsGone, ThreadMoves, joint_join_progress}

-- Both sides run, and the recording thread reads its file.
abbrev reading_now : Joint
reading_now = record {
  mutex = by_recorder;
  playing = true;
  play_buffer = true;
  player = Worker.looping;
  play_stage = between;
  recording = true;
  rec_buffer = true;
  recorder = Recorder.reading;
  rec_stage = between;
}

both_run : JointReach (record reading_now { mutex = free; recorder = Recorder.looping })
both_run =
    later
      (later
        (later (later start (caller_plays refl (CallerMove.starts refl refl)))
          (caller_plays refl (CallerMove.launches refl)))
        (caller_records refl (RecCallerMove.starts refl refl)))
      (caller_records refl (RecCallerMove.launches refl))

reading_reached : JointReach reading_now
reading_reached =
    later
      (later (later both_run (recorder_moves (RecorderMove.goes_on refl refl)))
        (recorder_moves (RecorderMove.locks refl refl)))
      (recorder_moves (RecorderMove.is_due refl))

joint_safe_example : (reading_now.mutex ≡ by_recorder) × (buffer_of reading_now by_recorder ≡ true)
joint_safe_example = joint_safe reading_now by_recorder reading_reached (inl refl)

-- The caller stops playout and waits, while both threads are at the head of their loops.
abbrev waiting_now : Joint
waiting_now = record reading_now {
  mutex = free;
  recorder = Recorder.looping;
  playing = false;
  play_stage = joining;
}

waiting_reached : JointReach waiting_now
waiting_reached =
    later
      (later (later both_run (caller_plays refl (CallerMove.stops refl)))
        (caller_plays refl (CallerMove.stop_locks refl refl)))
      (caller_plays refl (CallerMove.marks refl))

joint_join_progress_example :
    IsGone waiting_now Thread.play_thread
    ⊎ (ThreadMoves waiting_now ⊎ (waiting_now.mutex ≡ by_others))
joint_join_progress_example =
    joint_join_progress waiting_now Thread.play_thread waiting_reached refl
