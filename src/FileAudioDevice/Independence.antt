-- ===== src/FileAudioDevice/Independence.antt =====
-- What PlayThreadProcess and RecThreadProcess (src/FileAudioDevice.cpp) each read and change.
use mqtgcalls.Prelude.{◌≡◌, arith}
use mqtgcalls.Host.Files.{FileApi}
use mqtgcalls.FileAudioDevice.Defs.{FileAudioDevice}
use mqtgcalls.FileAudioDevice.Threads.{
  Tick, play_thread_process, rec_thread_process, record_block, end_round,
}

module _ {File : Type 0} where
  -- `d` with the fields that the playout thread owns as `e` has them.
  abbrev pub with_play : FileAudioDevice File → FileAudioDevice File → FileAudioDevice File
  with_play d e = record d {
    playout_buffer = e.playout_buffer;
    playout_frames_left = e.playout_frames_left;
    last_call_playout_millis = e.last_call_playout_millis;
    output_file = e.output_file;
  }

  abbrev pub with_rec : FileAudioDevice File → FileAudioDevice File → FileAudioDevice File
  with_rec d e = record d {
    recording_buffer = e.recording_buffer;
    last_call_record_millis = e.last_call_record_millis;
    input_file = e.input_file;
  }

module _ {File : Type 0} (api : FileApi File) where
  pub play_owns :
      (t : Tick) (d : FileAudioDevice File)
      → (play_thread_process api t d).1 ≡ with_play d (play_thread_process api t d).1
  unfolding play_thread_process
  play_owns t d = ground arith

  record_block_owns :
      (t : Tick) (d : FileAudioDevice File)
      → (record_block api t d).1 ≡ with_rec d (record_block api t d).1
  unfolding record_block
  record_block_owns t d = ground arith

  pub rec_owns :
      (t : Tick) (d : FileAudioDevice File)
      → (rec_thread_process api t d).1 ≡ with_rec d (rec_thread_process api t d).1
  unfolding rec_thread_process end_round
  rec_owns t d = ground (arith, record_block_owns t d)

  pub play_ignores :
      (t : Tick) (d e : FileAudioDevice File)
      → play_thread_process api t (with_rec d e)
        ≡ (let (go, d', es) = play_thread_process api t d in (go, with_rec d' e, es))
  unfolding play_thread_process
  play_ignores t d e = ground arith

  record_block_ignores :
      (t : Tick) (d e : FileAudioDevice File)
      → record_block api t (with_play d e)
        ≡ (let (go, d', es) = record_block api t d in (go, with_play d' e, es))
  unfolding record_block
  record_block_ignores t d e = ground arith

  pub rec_ignores :
      (t : Tick) (d e : FileAudioDevice File)
      → rec_thread_process api t (with_play d e)
        ≡ (let (go, d', es) = rec_thread_process api t d in (go, with_play d' e, es))
  unfolding rec_thread_process end_round
  rec_ignores t d e = ground (arith, record_block_ignores t d e)
