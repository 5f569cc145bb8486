-- ===== src/FileAudioDevice/Playback.antt =====
-- RecThreadFunc (src/FileAudioDevice.cpp) over a whole file.
use mathlib.Core.List.{append_assoc, append-nil}
use mqtgcalls.Prelude.{
  ℕ, ◌+◌, ◌*◌, ◌%◌, ◌≤◌, ◌<◌, Bytes, true, false, List, [], ◌∷◌, ◌++◌, ◌≡◌, refl, ap, ◌∙◌, arith,
  length, take, drop, overlay, take_all, length-take, length-drop, length-append, take-append-drop,
  overlay_full, overlay-append, eq_nil_of_length,
}
use native.Mathlib.Decide.{dec_lt}
use mqtgcalls.Host.Files.{FileApi, ReadsInOrder}
use mqtgcalls.Host.Playback.{captured, endings, captured-append, endings-append}
use mqtgcalls.FileAudioDevice.Defs.{FileAudioDevice, recording_buffer_size}
use mqtgcalls.FileAudioDevice.Threads.{Tick, is_due, rec_thread_process, rec_thread_func}
use mqtgcalls.FileAudioDevice.Rounds.{
  IsReady, block, round-continues, round-IsReady, round-rest, round-last, round-captured,
  round-endings, end-stops, ended,
}

-- Rounds that are due, with playout neither paused nor endless, and a callback to tell of the end.
abbrev pub PlaysOnce : Bytes → ℕ → List Tick → Type 0
PlaysOnce name last [] = Unit
PlaysOnce name last (t ∷ ts) =
    (is_due last t.now ≡ true)
    × (t.answers.is_playout_paused ≡ false)
    × (t.answers.is_endless_playout ≡ false)
    × (t.answers.has_playout_ended_callback ≡ true)
    × (t.answers.input_filename ≡ name)
    × PlaysOnce name t.now ts

-- `audio` is `content` and then less than a block of padding, up to a whole number of blocks.
abbrev pub IsPaddedTo : Bytes → Bytes → Type 0
IsPaddedTo content audio =
    (padding : Bytes) × (audio ≡ content ++ padding)
    × (length padding < recording_buffer_size)
    × ((length content + length padding) % recording_buffer_size ≡ 0)

-- A block that is overlaid on the buffer, and what is played after it: a whole block,
whole_block :
    (content buffer audio : Bytes)
    → length buffer ≡ recording_buffer_size
    → recording_buffer_size ≤ length content
    → IsPaddedTo (drop recording_buffer_size content) audio
    → IsPaddedTo content (overlay (take recording_buffer_size content) buffer ++ audio)
whole_block content buffer audio full enough (padding, e, short, whole) = (
  padding,
  rw (
    overlay_full (take recording_buffer_size content) buffer
        (omega (arith, length-take recording_buffer_size content)),
    e,
    ← append_assoc (take recording_buffer_size content) (drop recording_buffer_size content)
        padding,
    take-append-drop recording_buffer_size content,
  ),
  short,
  omega (arith, length-drop recording_buffer_size content),
)

-- or the last one, filled up with what the buffer held.
last_block :
    (content buffer audio : Bytes)
    → length buffer ≡ recording_buffer_size
    → 0 < length content
    → length content < recording_buffer_size
    → IsPaddedTo (drop recording_buffer_size content) audio
    → IsPaddedTo content (overlay (take recording_buffer_size content) buffer ++ audio)
last_block content buffer audio full some_left short_block (padding, e, short, whole) = (
  drop (length content) buffer ++ audio,
  rw (take_all recording_buffer_size content (omega arith)) (overlay-append content buffer audio),
  omega (arith, lengths, no_audio, length-drop (length content) buffer),
  omega (arith, lengths, no_audio, length-drop (length content) buffer),
)
  where
    lengths :
        length (drop (length content) buffer ++ audio)
        ≡ length (drop (length content) buffer) + length audio
    lengths = length-append (drop (length content) buffer) audio

    no_audio : length audio ≡ 0
    no_audio = omega (
      arith,
      ap length e,
      length-append (drop recording_buffer_size content) padding,
      length-drop recording_buffer_size content,
    )

pub padded_block :
    (content buffer audio : Bytes)
    → length buffer ≡ recording_buffer_size
    → 0 < length content
    → IsPaddedTo (drop recording_buffer_size content) audio
    → IsPaddedTo content (overlay (take recording_buffer_size content) buffer ++ audio)
padded_block content buffer audio full more padded =
    elim (dec_lt (length content) recording_buffer_size) [
      | yes short ↦ last_block content buffer audio full more short padded
      | no long ↦ whole_block content buffer audio full (omega arith) padded
    ]

module _ {File : Type 0} (api : FileApi File) where
  pub func_stops :
      (t : Tick) (ts : List Tick) (d : FileAudioDevice File)
      → (rec_thread_process api t d).0 ≡ false
      → rec_thread_func api (t ∷ ts) d
        ≡ (false, (rec_thread_process api t d).1, (rec_thread_process api t d).2)
  unfolding rec_thread_func
  func_stops t ts d e = ground (arith, append-nil (rec_thread_process api t d).2)

  pub func_continues :
      (t : Tick) (ts : List Tick) (d : FileAudioDevice File)
      → (rec_thread_process api t d).0 ≡ true
      → let later = rec_thread_func api ts (rec_thread_process api t d).1 in
        rec_thread_func api (t ∷ ts) d
        ≡ (later.0, later.1, (rec_thread_process api t d).2 ++ later.2)
  unfolding rec_thread_func
  func_continues t ts d e = ground arith

module _ {File : Type 0} (api : FileApi File) (files : ReadsInOrder api) where
  open files use {rest}

  abbrev pub Plays : Bytes → List Tick → FileAudioDevice File → Type 0
  Plays name ts d =
      let (more, after, events) = rec_thread_func api ts d in
      (more ≡ false)
      × IsPaddedTo (rest d.input_file) (captured events)
      × (endings events ≡ name ∷ [])

  -- The thread stops at the end of the file,
  Plays-end :
      (name : Bytes) (t : Tick) (ts : List Tick) (d : FileAudioDevice File) (buffer : Bytes)
      → IsReady api files d buffer
      → PlaysOnce name d.last_call_record_millis (t ∷ ts)
      → length (rest d.input_file) ≡ 0
      → Plays name (t ∷ ts) d
  Plays-end name t ts d buffer r p over = rw (func_stops api t ts d stops.0) (
    refl,
    ([], rw (stops.1, eq_nil_of_length (rest d.input_file) over), omega arith, omega arith),
    stops.2 ∙ ground arith,
  )
    where
      stops :
          ((rec_thread_process api t d).0 ≡ false)
          × (captured (rec_thread_process api t d).2 ≡ [])
          × (endings (rec_thread_process api t d).2 ≡ ended t)
      stops =
          end-stops api files t d buffer r p.0 p.1
            (omega (arith, length-take recording_buffer_size (rest d.input_file))) p.2

  -- and before it delivers a block and goes on.
  Plays-block :
      (name : Bytes) (t : Tick) (ts : List Tick) (d : FileAudioDevice File) (buffer : Bytes)
      → IsReady api files d buffer
      → PlaysOnce name d.last_call_record_millis (t ∷ ts)
      → 0 < length (rest d.input_file)
      → Plays name ts (rec_thread_process api t d).1
      → Plays name (t ∷ ts) d
  Plays-block name t ts d buffer r p more (stops, padded, ends) =
      rw (func_continues api t ts d (round-continues api files t d buffer r p.0 p.1 some_read)) (
        stops,
        rw
            (
              captured-append (rec_thread_process api t d).2 _,
              round-captured api files t d buffer r p.0 p.1 some_read,
            )
            (padded_block (rest d.input_file) buffer _ r.fits more
              (rw (round-rest api files t d buffer r p.0 p.1 some_read) at padded)),
        rw
            (
              endings-append (rec_thread_process api t d).2 _,
              round-endings api files t d buffer r p.0 p.1 some_read,
            )
            ends,
      )
    where
      some_read : 0 < length (block api files t d buffer r p.0 p.1)
      some_read = omega (arith, length-take recording_buffer_size (rest d.input_file))

  -- A file is played to its end as the microphone. Let the device record, with an open input file
  -- that is read in order, 480 frames for 10 ms and a buffer of 1920 bytes; let every round be
  -- due, not paused, not endless, with a callback that is set and one name for the file; and let
  -- there be rounds for the bytes not yet read and one more block. Then the recording thread
  -- returns; the audio that the transport reads is exactly the bytes not yet read, followed by
  -- less than one block of padding up to a whole number of blocks; and the end is announced once,
  -- by that name.
  pub rec_thread_func-Plays_file :
      (name : Bytes) (ts : List Tick) (d : FileAudioDevice File) (buffer : Bytes)
      → IsReady api files d buffer
      → PlaysOnce name d.last_call_record_millis ts
      → length (rest d.input_file) + recording_buffer_size ≤ recording_buffer_size * length ts
      → Plays name ts d
  rec_thread_func-Plays_file name [] d buffer r p enough = absurd (omega arith)
  rec_thread_func-Plays_file name (t ∷ ts) d buffer r p enough =
      elim (dec_lt 0 (length (rest d.input_file))) [
        | yes more ↦
            let some_read : 0 < length (take recording_buffer_size (rest d.input_file)) =
              omega (arith, length-take recording_buffer_size (rest d.input_file)) in
            Plays-block name t ts d buffer r p more (
              rec_thread_func-Plays_file name ts (rec_thread_process api t d).1 _
                (round-IsReady api files t d buffer r p.0 p.1 some_read)
                (rw (round-last api files t d buffer r p.0 p.1 some_read) p.5)
                (rw (round-rest api files t d buffer r p.0 p.1 some_read)
                  (omega (arith, length-drop recording_buffer_size (rest d.input_file)))))
        | no over ↦ Plays-end name t ts d buffer r p (omega arith)
      ]
