-- ===== src/FileAudioDevice/Saving.antt =====
-- What the playout thread writes to the output file.
use mathlib.Core.List.{append_assoc, append-nil}
use mqtgcalls.Prelude.{
  ℕ, Bytes, true, List, [], ◌∷◌, ◌++◌, ◌≡◌, sym, some, arith, length, overlay, take_all,
  overlay_full, if◌then◌else◌,
}
use mqtgcalls.Host.Files.{FileApi, WritesInOrder}
use mqtgcalls.FileAudioDevice.Defs.{FileAudioDevice, playout_buffer_size}
use mqtgcalls.FileAudioDevice.Threads.{Tick, is_due, play_thread_process, play_thread_func}

-- Rounds that are due, and in which the transport gives a whole block.
abbrev pub PlaysBlocks : ℕ → List Tick → Type 0
PlaysBlocks last [] = Unit
PlaysBlocks last (t ∷ ts) =
    (is_due last t.now ≡ true) × (length t.samples ≡ playout_buffer_size) × PlaysBlocks t.now ts

-- The audio of the rounds in which recording was not paused.
abbrev pub unpaused : List Tick → Bytes
unpaused [] = []
unpaused (t ∷ ts) = (if t.answers.is_recording_paused then [] else t.samples) ++ unpaused ts

module _ {File : Type 0} (api : FileApi File) (files : WritesInOrder api) where
  open files use {written}

  pub record IsSaving (d : FileAudioDevice File) : Type 0 where
    pub playing : d.playing ≡ true
    pub opened : api.is_open d.output_file ≡ true
    pub has_buffer : (b : Bytes) × (d.playout_buffer ≡ some b) × (length b ≡ playout_buffer_size)

  module _ (t : Tick) (d : FileAudioDevice File) (r : IsSaving d)
      (due : is_due d.last_call_playout_millis t.now ≡ true)
      (full : length t.samples ≡ playout_buffer_size) where
    abbrev next : FileAudioDevice File
    next = (play_thread_process api t d).1

    buffer_after : overlay t.samples r.has_buffer.0 ≡ t.samples
    buffer_after = overlay_full t.samples r.has_buffer.0 (omega (arith, r.has_buffer.2, full))

    process_basics :
        ((play_thread_process api t d).0 ≡ true)
        × (next.playing ≡ true)
        × (next.playout_buffer ≡ some t.samples)
        × (next.last_call_playout_millis ≡ t.now)
    unfolding play_thread_process
    process_basics = ground (arith, buffer_after, r.playing, r.has_buffer)

    process_file : next.output_file ≡ (
        if t.answers.is_recording_paused then d.output_file else api.write d.output_file t.samples)
    unfolding play_thread_process
    process_file = ground (
      arith,
      buffer_after,
      r.playing,
      r.opened,
      r.has_buffer,
      take_all playout_buffer_size t.samples,
    )

    process-IsSaving : IsSaving next
    process-IsSaving = record {
      playing = process_basics.1;
      opened =
          rw process_file (ground (arith, r.opened, files.is_open-write d.output_file t.samples));
      has_buffer = (t.samples, process_basics.2, full);
    }

    process-written :
        written next.output_file
        ≡ written d.output_file ++ (if t.answers.is_recording_paused then [] else t.samples)
    process-written = rw process_file (
        ground (
          arith,
          r.opened,
          files.write_lem d.output_file t.samples,
          append-nil (written d.output_file),
        ))

  func_continues :
      (t : Tick) (ts : List Tick) (d : FileAudioDevice File)
      → (play_thread_process api t d).0 ≡ true
      → (play_thread_func api (t ∷ ts) d).1
        ≡ (play_thread_func api ts (play_thread_process api t d).1).1
  unfolding play_thread_func
  func_continues t ts d e = ground arith

  -- The playout thread writes to the output file exactly the audio of the rounds in which
  -- recording was not paused, in order, after what was written before. The device plays, with an
  -- open output file that is written in order and a playout buffer of 1920 bytes; every round is
  -- due, and in it the transport gives 1920 bytes.
  pub play_thread_func-saves :
      (ts : List Tick) (d : FileAudioDevice File)
      → IsSaving d
      → PlaysBlocks d.last_call_playout_millis ts
      → written (play_thread_func api ts d).1.output_file ≡ written d.output_file ++ unpaused ts
  play_thread_func-saves [] d r p =
      unfold play_thread_func in sym (append-nil (written d.output_file))
  play_thread_func-saves (t ∷ ts) d r p =
      rw
        (
          func_continues t ts d (process_basics t d r p.0 p.1).0,
          play_thread_func-saves ts (play_thread_process api t d).1 (process-IsSaving t d r p.0 p.1)
              (rw (process_basics t d r p.0 p.1).3 p.2),
          process-written t d r p.0 p.1,
        )
        (append_assoc (written d.output_file) _ (unpaused ts))
