-- ===== src/FileAudioDevice/Endless.antt =====
-- Endless playout in RecThreadProcess (src/FileAudioDevice.cpp): the branch that rewinds the file.
use mqtgcalls.Prelude.{Bytes, true, false, [], ◌≡◌, arith, length, length-take}
use mqtgcalls.Host.Files.{FileApi, ReadsInOrder}
use mqtgcalls.Host.Playback.{captured, endings}
use mqtgcalls.FileAudioDevice.Defs.{FileAudioDevice, recording_buffer_size}
use mqtgcalls.FileAudioDevice.Threads.{Tick, is_due, rec_thread_process, record_block, end_round}
use mqtgcalls.FileAudioDevice.Rounds.{IsReady, ended}

module _ {File : Type 0} (api : FileApi File) (files : ReadsInOrder api) where
  open files use {rest, whole}

  -- With endless playout, at the end of an open input file that is read in order, a due round
  -- that is not paused goes on: all bytes of the file are to be read again and it stays open, the
  -- transport is given no audio, and the end is announced if the callback is set.
  pub endless_rewinds :
      (t : Tick) (d : FileAudioDevice File) (buffer : Bytes)
      → IsReady api files d buffer
      → is_due d.last_call_record_millis t.now ≡ true
      → t.answers.is_playout_paused ≡ false
      → t.answers.is_endless_playout ≡ true
      → length (rest d.input_file) ≡ 0
      → let (more, after, events) = rec_thread_process api t d in
        (more ≡ true)
        × (rest after.input_file ≡ whole d.input_file)
        × (api.is_open after.input_file ≡ true)
        × (captured events ≡ [])
        × (endings events ≡ ended t)
  unfolding rec_thread_process record_block end_round captured endings
  endless_rewinds t d buffer r due runs endless over = ground (
    arith,
    files.read_lem d.input_file recording_buffer_size r.opened,
    length-take recording_buffer_size (rest d.input_file),
    files.is_open-read d.input_file recording_buffer_size r.opened,
    files.rest-rewind (api.read d.input_file recording_buffer_size).1,
    files.is_open-rewind (api.read d.input_file recording_buffer_size).1,
    files.whole-read d.input_file recording_buffer_size,
  )
