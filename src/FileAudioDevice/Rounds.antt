-- ===== src/FileAudioDevice/Rounds.antt =====
-- One round of RecThreadProcess (src/FileAudioDevice.cpp) over a file: a block, or the end.
use mathlib.Core.List.{append-nil}
use mqtgcalls.Prelude.{
  ◌≤◌, ◌<◌, Bytes, true, false, List, [], ◌∷◌, ◌≡◌, some, arith, length, take, drop, overlay,
  take_all, length-take, length-overlay, if◌then◌else◌,
}
use mqtgcalls.Host.Files.{FileApi, ReadsInOrder}
use mqtgcalls.Host.Playback.{captured, endings}
use mqtgcalls.Host.Transport.{delivered, stored_after}
use mqtgcalls.FileAudioDevice.Defs.{FileAudioDevice, recording_buffer_size}
use mqtgcalls.FileAudioDevice.Threads.{Tick, is_due, rec_thread_process, record_block, end_round}

-- The announcement that the callback is given, if there is one.
abbrev pub ended : Tick → List Bytes
ended t = if t.answers.has_playout_ended_callback then t.answers.input_filename ∷ [] else []

module _ {File : Type 0} (api : FileApi File) (files : ReadsInOrder api) where
  open files use {rest}

  -- A device that records from an open file, with a buffer for 10 ms.
  pub record IsReady (d : FileAudioDevice File) (buffer : Bytes) : Type 0 where
    pub recording : d.recording ≡ true
    pub opened : api.is_open d.input_file ≡ true
    pub frames : d.recording_frames_in_10ms ≡ 480
    pub has_buffer : d.recording_buffer ≡ some buffer
    pub fits : length buffer ≡ recording_buffer_size

  -- One round of the thread, due and not paused, while the file has bytes left and at its end.
  module _ (t : Tick) (d : FileAudioDevice File) (buffer : Bytes) (r : IsReady d buffer)
      (due : is_due d.last_call_record_millis t.now ≡ true)
      (runs : t.answers.is_playout_paused ≡ false) where
    abbrev pub block : Bytes
    block = take recording_buffer_size (rest d.input_file)

    abbrev pub next : FileAudioDevice File
    next = (rec_thread_process api t d).1

    read_eq : (api.read d.input_file recording_buffer_size).0 ≡ block
    read_eq = files.read_lem d.input_file recording_buffer_size r.opened

    block_fits : length block ≤ length buffer
    block_fits = omega (arith, length-take recording_buffer_size (rest d.input_file), r.fits)

    pub round-continues : 0 < length block → (rec_thread_process api t d).0 ≡ true
    unfolding rec_thread_process record_block
    round-continues more = ground (arith, read_eq, r.recording, r.opened)

    pub round-IsReady : 0 < length block → IsReady next (overlay block buffer)
    unfolding rec_thread_process record_block end_round
    round-IsReady more = ground (
      arith,
      read_eq,
      length-overlay block buffer,
      block_fits,
      files.is_open-read d.input_file recording_buffer_size,
    )

    pub round-rest :
        0 < length block → rest next.input_file ≡ drop recording_buffer_size (rest d.input_file)
    unfolding rec_thread_process record_block end_round
    round-rest more = ground (arith, read_eq, files.rest-read d.input_file recording_buffer_size)

    pub round-last : 0 < length block → next.last_call_record_millis ≡ t.now
    unfolding rec_thread_process record_block end_round
    round-last more = ground (arith, read_eq)

    pub round-captured :
        0 < length block → captured (rec_thread_process api t d).2 ≡ overlay block buffer
    unfolding rec_thread_process record_block end_round captured
    round-captured more = ground (
      arith,
      read_eq,
      append-nil (take 1920 (overlay block buffer)),
      take_all 1920 (overlay block buffer),
      length-overlay block buffer,
      block_fits,
    )

    pub round-delivered :
        (stored : Bytes)
        → 0 < length block
        → (delivered stored (rec_thread_process api t d).2 ≡ overlay block buffer ∷ [])
          × (stored_after stored (rec_thread_process api t d).2 ≡ overlay block buffer)
    unfolding rec_thread_process record_block end_round delivered stored_after
    round-delivered stored more = ground (
      arith,
      read_eq,
      take_all 1920 (overlay block buffer),
      length-overlay block buffer,
      block_fits,
    )

    pub round-endings : 0 < length block → endings (rec_thread_process api t d).2 ≡ []
    unfolding rec_thread_process record_block end_round endings
    round-endings more = ground (arith, read_eq)

    pub end-stops :
        length block ≡ 0
        → t.answers.is_endless_playout ≡ false
        → ((rec_thread_process api t d).0 ≡ false)
          × (captured (rec_thread_process api t d).2 ≡ [])
          × (endings (rec_thread_process api t d).2 ≡ ended t)
    unfolding rec_thread_process record_block end_round captured endings
    end-stops none_left once = ground (arith, read_eq)
