-- ===== src/RawAudioDevice/Independence.antt =====
-- What PlayThreadProcess and RecThreadProcess (src/RawAudioDevice.cpp) each read and change.
use mqtgcalls.Prelude.{◌≡◌, arith}
use mqtgcalls.RawAudioDevice.Defs.{RawAudioDevice}
use mqtgcalls.RawAudioDevice.Threads.{Tick, play_thread_process, rec_thread_process}

-- `d` with the fields that the playout thread owns as `e` has them.
abbrev pub with_play : RawAudioDevice → RawAudioDevice → RawAudioDevice
with_play d e = record d {
  playout_buffer = e.playout_buffer;
  playout_frames_left = e.playout_frames_left;
  last_call_playout_millis = e.last_call_playout_millis;
}

abbrev pub with_rec : RawAudioDevice → RawAudioDevice → RawAudioDevice
with_rec d e = record d {
  recording_buffer = e.recording_buffer;
  last_call_record_millis = e.last_call_record_millis;
}

pub play_owns :
    (t : Tick) (d : RawAudioDevice)
    → (play_thread_process t d).1 ≡ with_play d (play_thread_process t d).1
unfolding play_thread_process
play_owns t d = ground arith

pub rec_owns :
    (t : Tick) (d : RawAudioDevice)
    → (rec_thread_process t d).1 ≡ with_rec d (rec_thread_process t d).1
unfolding rec_thread_process
rec_owns t d = ground arith

pub play_ignores :
    (t : Tick) (d e : RawAudioDevice)
    → play_thread_process t (with_rec d e)
      ≡ (let (go, d', es) = play_thread_process t d in (go, with_rec d' e, es))
unfolding play_thread_process
play_ignores t d e = ground arith

pub rec_ignores :
    (t : Tick) (d e : RawAudioDevice)
    → rec_thread_process t (with_play d e)
      ≡ (let (go, d', es) = rec_thread_process t d in (go, with_play d' e, es))
unfolding rec_thread_process
rec_ignores t d e = ground arith
