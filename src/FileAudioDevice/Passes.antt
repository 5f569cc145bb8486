-- ===== src/FileAudioDevice/Passes.antt =====
-- Endless playout over many passes of a file: RecThreadFunc (src/FileAudioDevice.cpp).
use mathlib.Core.List.{append-nil}
use mqtgcalls.Prelude.{
  ℕ, zero, suc, ◌+◌, ◌*◌, ◌/◌, ◌<◌, Bytes, true, false, List, [], ◌∷◌, ◌++◌, ◌≡◌, refl, ap, ◌∙◌,
  arith, length, take, drop, overlay, overlay_none, length-take, length-drop, eq_nil_of_length,
  replicate,
}
use native.Mathlib.Decide.{dec_lt}
use mqtgcalls.Host.Files.{FileApi, ReadsInOrder}
use mqtgcalls.Host.Playback.{endings, endings-append}
use mqtgcalls.Host.Transport.{delivered, stored_after, delivered-append, joined, last_of}
use mqtgcalls.FileAudioDevice.Defs.{FileAudioDevice, recording_buffer_size}
use mqtgcalls.FileAudioDevice.Threads.{
  Tick, is_due, rec_thread_process, record_block, end_round, rec_thread_func,
}
use mqtgcalls.FileAudioDevice.Rounds.{
  IsReady, block, round-continues, round-IsReady, round-rest, round-last, round-delivered,
  round-endings,
}
use mqtgcalls.FileAudioDevice.Playback.{IsPaddedTo, padded_block, func_continues}
use mqtgcalls.FileAudioDevice.Endless.{endless_rewinds}

-- Rounds that are due, with playout endless and not paused, and a callback to tell of each end.
abbrev pub PlaysEndless : Bytes → ℕ → List Tick → Type 0
PlaysEndless name last [] = Unit
PlaysEndless name last (t ∷ ts) =
    (is_due last t.now ≡ true)
    × (t.answers.is_playout_paused ≡ false)
    × (t.answers.is_endless_playout ≡ true)
    × (t.answers.has_playout_ended_callback ≡ true)
    × (t.answers.input_filename ≡ name)
    × PlaysEndless name t.now ts

-- The rounds of a pass over so many bytes: one for each block, and one that finds the end.
abbrev pub pass_rounds : (bytes : ℕ) → ℕ
pass_rounds bytes = suc ((bytes + 1919) / 1920)

-- Blocks that are passed on: `left`, padded, and then `n` times `whole`, each time padded; and at
-- the end of each of these passes its last block, which the transport still has, once more.
abbrev pub IsPasses : ℕ → (stored left whole : Bytes) → List Bytes → Type 0
IsPasses zero stored left whole blocks =
    (first : List Bytes) × (blocks ≡ first ++ (last_of stored first ∷ []))
    × IsPaddedTo left (joined first)
IsPasses (suc n) stored left whole blocks =
    (first : List Bytes) × (later : List Bytes) × (blocks ≡ first ++ (last_of stored first ∷ later))
    × IsPaddedTo left (joined first)
    × IsPasses n (last_of stored first) whole whole later

IsPasses-block :
    (n : ℕ) (stored left whole buffer : Bytes) (blocks : List Bytes)
    → length buffer ≡ recording_buffer_size
    → 0 < length left
    → let block = overlay (take recording_buffer_size left) buffer in
      IsPasses n block (drop recording_buffer_size left) whole blocks
      → IsPasses n stored left whole (block ∷ blocks)
IsPasses-block zero stored left whole buffer blocks full more (first, e, padded) =
    let block = overlay (take recording_buffer_size left) buffer in
    (block ∷ first, ap (◌∷◌ block) e, padded_block left buffer (joined first) full more padded)
IsPasses-block (suc n) stored left whole buffer blocks full more (first, later, e, padded, p) =
    let block = overlay (take recording_buffer_size left) buffer in
    (
      block ∷ first,
      later,
      ap (◌∷◌ block) e,
      padded_block left buffer (joined first) full more padded,
      p,
    )

module _ {File : Type 0} (api : FileApi File) (files : ReadsInOrder api) where
  open files use {rest, whole}

  rewind-IsReady :
      (t : Tick) (d : FileAudioDevice File) (buffer : Bytes)
      → IsReady api files d buffer
      → is_due d.last_call_record_millis t.now ≡ true
      → t.answers.is_playout_paused ≡ false
      → t.answers.is_endless_playout ≡ true
      → length (rest d.input_file) ≡ 0
      → let next = (rec_thread_process api t d).1 in
        IsReady api files next buffer
        × (next.last_call_record_millis ≡ t.now)
        × (whole next.input_file ≡ whole d.input_file)
  unfolding rec_thread_process record_block end_round
  rewind-IsReady t d buffer r due runs endless over = ground (
    arith,
    files.read_lem d.input_file recording_buffer_size r.opened,
    length-take recording_buffer_size (rest d.input_file),
    eq_nil_of_length (take recording_buffer_size (rest d.input_file)),
    overlay_none buffer,
    files.is_open-read d.input_file recording_buffer_size r.opened,
    files.is_open-rewind (api.read d.input_file recording_buffer_size).1,
    files.whole-rewind (api.read d.input_file recording_buffer_size).1,
    files.whole-read d.input_file recording_buffer_size,
  )

  round-whole :
      (t : Tick) (d : FileAudioDevice File) (buffer : Bytes)
      → IsReady api files d buffer
      → is_due d.last_call_record_millis t.now ≡ true
      → t.answers.is_playout_paused ≡ false
      → 0 < length (rest d.input_file)
      → whole (rec_thread_process api t d).1.input_file ≡ whole d.input_file
  unfolding rec_thread_process record_block end_round
  round-whole t d buffer r due runs more = ground (
    arith,
    files.read_lem d.input_file recording_buffer_size r.opened,
    length-take recording_buffer_size (rest d.input_file),
    files.whole-read d.input_file recording_buffer_size,
  )

  -- The transport passes on once more the block that it has.
  rewind-delivered :
      (stored : Bytes) (t : Tick) (d : FileAudioDevice File) (buffer : Bytes)
      → IsReady api files d buffer
      → is_due d.last_call_record_millis t.now ≡ true
      → t.answers.is_playout_paused ≡ false
      → t.answers.is_endless_playout ≡ true
      → length (rest d.input_file) ≡ 0
      → (delivered stored (rec_thread_process api t d).2 ≡ stored ∷ [])
        × (stored_after stored (rec_thread_process api t d).2 ≡ stored)
  unfolding rec_thread_process record_block end_round delivered stored_after
  rewind-delivered stored t d buffer r due runs endless over = ground (
    arith,
    files.read_lem d.input_file recording_buffer_size r.opened,
    length-take recording_buffer_size (rest d.input_file),
  )

  abbrev pub Loops : ℕ → (stored name : Bytes) → List Tick → FileAudioDevice File → Type 0
  Loops n stored name ts d =
      let (more, after, events) = rec_thread_func api ts d in
      (more ≡ true)
      × (rest after.input_file ≡ whole d.input_file)
      × IsPasses n stored (rest d.input_file) (whole d.input_file) (delivered stored events)
      × (endings events ≡ replicate (suc n) name)

  Loops-block :
      (n : ℕ) (stored name : Bytes) (t : Tick) (ts : List Tick) (d : FileAudioDevice File)
      (buffer : Bytes)
      → IsReady api files d buffer
      → PlaysEndless name d.last_call_record_millis (t ∷ ts)
      → 0 < length (rest d.input_file)
      → Loops n
          (overlay (take recording_buffer_size (rest d.input_file)) buffer)
          name
          ts
          (rec_thread_process api t d).1
      → Loops n stored name (t ∷ ts) d
  Loops-block n stored name t ts d buffer r p more (goes, back, passes, ends) =
      rw (func_continues api t ts d (round-continues api files t d buffer r p.0 p.1 some_read)) (
        goes,
        rw same at back,
        rw
            (
              delivered-append stored (rec_thread_process api t d).2 _,
              (round-delivered api files t d buffer r p.0 p.1 stored some_read).0,
              (round-delivered api files t d buffer r p.0 p.1 stored some_read).1,
            )
            (IsPasses-block n stored (rest d.input_file) (whole d.input_file) buffer _ r.fits more
              (rw (same, round-rest api files t d buffer r p.0 p.1 some_read) at passes)),
        rw
            (
              endings-append (rec_thread_process api t d).2 _,
              round-endings api files t d buffer r p.0 p.1 some_read,
            )
            ends,
      )
    where
      some_read : 0 < length (block api files t d buffer r p.0 p.1)
      some_read = omega (arith, length-take recording_buffer_size (rest d.input_file))

      same : whole (rec_thread_process api t d).1.input_file ≡ whole d.input_file
      same = round-whole t d buffer r p.0 p.1 more

  -- A round at the end of the file: the last of its pass, and perhaps of all.
  module _ (stored name : Bytes) (t : Tick) (ts : List Tick) (d : FileAudioDevice File)
      (buffer : Bytes) (r : IsReady api files d buffer)
      (p : PlaysEndless name d.last_call_record_millis (t ∷ ts))
      (over : length (rest d.input_file) ≡ 0) where
    abbrev next : FileAudioDevice File
    next = (rec_thread_process api t d).1

    rewinds :
        ((rec_thread_process api t d).0 ≡ true)
        × (rest next.input_file ≡ whole d.input_file)
        × (api.is_open next.input_file ≡ true)
        × (delivered stored (rec_thread_process api t d).2 ≡ stored ∷ [])
        × (stored_after stored (rec_thread_process api t d).2 ≡ stored)
        × (endings (rec_thread_process api t d).2 ≡ name ∷ [])
    rewinds =
        let (go, back, opened, silent, end) =
          endless_rewinds api files t d buffer r p.0 p.1 p.2 over in
        let (again, same) = rewind-delivered stored t d buffer r p.0 p.1 p.2 over in
        (go, back, opened, again, same, end ∙ ground arith)

    padded_end : IsPaddedTo (rest d.input_file) []
    padded_end = ([], rw (eq_nil_of_length (rest d.input_file) over) refl, omega arith, omega arith)

    Loops-last : ts ≡ [] → Loops zero stored name (t ∷ ts) d
    unfolding replicate
    Loops-last none_left =
        rw (none_left, func_continues api t [] d rewinds.0)
          (unfold rec_thread_func in
            (
              refl,
              rewinds.1,
              ([], rw (append-nil (rec_thread_process api t d).2) rewinds.3, padded_end),
              rw (append-nil (rec_thread_process api t d).2) rewinds.5,
            ))

    Loops-rewind : (n : ℕ) → Loops n stored name ts next → Loops (suc n) stored name (t ∷ ts) d
    unfolding replicate
    Loops-rewind n (goes, back, passes, ends) = rw (func_continues api t ts d rewinds.0) (
      goes,
      rw same at back,
      (
        [],
        delivered stored (rec_thread_func api ts next).2,
        rw (delivered-append stored (rec_thread_process api t d).2 _, rewinds.3, rewinds.4) refl,
        padded_end,
        rw (same, rewinds.1) at passes,
      ),
      rw (endings-append (rec_thread_process api t d).2 _, rewinds.5) (ap (◌∷◌ name) ends),
    )
      where
        same : whole next.input_file ≡ whole d.input_file
        same = (rewind-IsReady t d buffer r p.0 p.1 p.2 over).2

    Loops-end :
        (n : ℕ)
        → length ts ≡ n * pass_rounds (length (whole d.input_file))
        → ((m : ℕ)
            → length ts
              ≡ pass_rounds (length (whole d.input_file))
                + m * pass_rounds (length (whole d.input_file))
            → Loops m stored name ts next)
        → Loops n stored name (t ∷ ts) d
    Loops-end zero e later = Loops-last (eq_nil_of_length ts (omega arith))
    Loops-end (suc m) e later = Loops-rewind m (later m (omega arith))

  -- With endless playout a file is played over and over. Let the device record, with an open
  -- input file that is read in order, 480 frames for 10 ms and a buffer of 1920 bytes; let every
  -- round be due, not paused, endless, with a callback that is set and one name for the file; and
  -- let there be just the rounds for the bytes not yet read and then for n times the whole file,
  -- where a pass takes a round for each block of 1920 bytes, the last perhaps not full, and one
  -- more. Then the recording thread goes on, and the whole file is to be read again; the blocks
  -- that the transport passes on, as it is told to deliver, are those of n + 1 passes, the first
  -- over the bytes not yet read and the others over the whole file, where the blocks of a pass
  -- are its bytes followed by less than one block of padding, and after each pass the last block
  -- that the transport has is passed on once more; and the end is announced n + 1 times, by that
  -- name.
  pub rec_thread_func-Loops :
      (n : ℕ) (stored name : Bytes) (ts : List Tick) (d : FileAudioDevice File) (buffer : Bytes)
      → IsReady api files d buffer
      → PlaysEndless name d.last_call_record_millis ts
      → length ts
        ≡ pass_rounds (length (rest d.input_file)) + n * pass_rounds (length (whole d.input_file))
      → Loops n stored name ts d
  rec_thread_func-Loops n stored name [] d buffer r p enough = absurd (omega arith)
  rec_thread_func-Loops n stored name (t ∷ ts) d buffer r p enough =
      elim (dec_lt 0 (length (rest d.input_file))) [
        | yes more ↦
            let some_read : 0 < length (take recording_buffer_size (rest d.input_file)) =
              omega (arith, length-take recording_buffer_size (rest d.input_file)) in
            Loops-block n stored name t ts d buffer r p more (
              rec_thread_func-Loops n _ name ts (rec_thread_process api t d).1 _
                (round-IsReady api files t d buffer r p.0 p.1 some_read)
                (rw (round-last api files t d buffer r p.0 p.1 some_read) p.5)
                (rw
                  (
                    round-rest api files t d buffer r p.0 p.1 some_read,
                    round-whole t d buffer r p.0 p.1 more,
                  )
                  (omega (arith, length-drop recording_buffer_size (rest d.input_file)))))
        | no left ↦
            let over : length (rest d.input_file) ≡ 0 = omega arith in
            let (ready, last, same) = rewind-IsReady t d buffer r p.0 p.1 p.2 over in
            Loops-end stored name t ts d buffer r p over n (omega arith) (λ m e.
              rec_thread_func-Loops m stored name ts (rec_thread_process api t d).1 buffer ready
                (rw last p.5) (rw (same, (rewinds stored name t ts d buffer r p over).1) e))
      ]
