-- ===== src/FileAudioDevice/Announcing.antt =====
-- The mutex at the calls of `_playoutEndedCallback` in RecThreadProcess (src/FileAudioDevice.cpp).
use mqtgcalls.Prelude.{Bool, true, false, List, [], ◌∷◌, ◌++◌, ◌≡◌, refl, arith, ap}
use mqtgcalls.Host.{Event, lock, unlock, playout_ended}
use mqtgcalls.Host.Files.{FileApi}
use mqtgcalls.FileAudioDevice.Defs.{FileAudioDevice}
use mqtgcalls.FileAudioDevice.Threads.{
  Tick, rec_thread_process, record_block, end_round, rec_thread_func,
}

-- Whether the mutex is held after some events,
unfoldable pub held_after : Bool → List Event → Bool
held_after held [] = held
held_after held (lock ∷ es) = held_after true es
held_after held (unlock ∷ es) = held_after false es
held_after held (e ∷ es) = held_after held es

-- and at each announcement among them.
unfoldable pub held_at_endings : Bool → List Event → List Bool
held_at_endings held [] = []
held_at_endings held (lock ∷ es) = held_at_endings true es
held_at_endings held (unlock ∷ es) = held_at_endings false es
held_at_endings held (playout_ended name ∷ es) = held ∷ held_at_endings held es
held_at_endings held (e ∷ es) = held_at_endings held es

held_at_endings-append :
    (held : Bool) (es fs : List Event)
    → held_at_endings held (es ++ fs)
      ≡ held_at_endings held es ++ held_at_endings (held_after held es) fs
unfolding held_at_endings held_after
held_at_endings-append held [] fs = refl
held_at_endings-append held (lock ∷ es) fs = held_at_endings-append true es fs
held_at_endings-append held (unlock ∷ es) fs = held_at_endings-append false es fs
held_at_endings-append held (playout_ended name ∷ es) fs =
    ap (◌∷◌ held) (held_at_endings-append held es fs)
held_at_endings-append held (e ∷ es) fs = held_at_endings-append held es fs

abbrev pub AllAre : Bool → List Bool → Type 0
AllAre b [] = Unit
AllAre b (x ∷ xs) = (x ≡ b) × AllAre b xs

AllAre-append : (b : Bool) (xs ys : List Bool) → AllAre b xs → AllAre b ys → AllAre b (xs ++ ys)
AllAre-append b [] ys p q = q
AllAre-append b (x ∷ xs) ys p q = (p.0, AllAre-append b xs ys p.1 q)

-- Playout is endless in every round, or in none.
abbrev pub AllEndlessIs : Bool → List Tick → Type 0
AllEndlessIs b [] = Unit
AllEndlessIs b (t ∷ ts) = (t.answers.is_endless_playout ≡ b) × AllEndlessIs b ts

module _ {File : Type 0} (api : FileApi File) where
  abbrev Announces : Bool → List Event → Type 0
  Announces b es = (held_after false es ≡ false) × AllAre b (held_at_endings false es)

  round-Announces :
      (endless : Bool) (t : Tick) (d : FileAudioDevice File)
      → t.answers.is_endless_playout ≡ endless
      → Announces endless (rec_thread_process api t d).2
  unfolding rec_thread_process record_block end_round held_after held_at_endings
  round-Announces endless t d e = ground arith

  round_then :
      (endless : Bool) (t : Tick) (d : FileAudioDevice File) (es : List Event)
      → t.answers.is_endless_playout ≡ endless
      → AllAre endless (held_at_endings false es)
      → AllAre endless (held_at_endings false ((rec_thread_process api t d).2 ++ es))
  round_then endless t d es e later =
      let (freed, announced) = round-Announces endless t d e in
      rw (held_at_endings-append false (rec_thread_process api t d).2 es, freed)
        (AllAre-append endless (held_at_endings false (rec_thread_process api t d).2) _ announced
          later)

  -- In whatever rounds and from whatever state, the recording thread of a file device calls the
  -- callback for the end of the file only with the mutex held if playout is endless in every
  -- round, and only with the mutex free if it is endless in none.
  pub rec_thread_func-announces :
      (endless : Bool) (ts : List Tick) (d : FileAudioDevice File)
      → AllEndlessIs endless ts
      → AllAre endless (held_at_endings false (rec_thread_func api ts d).2)
  unfolding rec_thread_func
  rec_thread_func-announces endless [] d p = unfold held_at_endings in tt
  rec_thread_func-announces endless (t ∷ ts) d p =
      let later = rec_thread_func-announces endless ts (rec_thread_process api t d).1 p.1 in
      let none_later : AllAre endless (held_at_endings false []) = unfold held_at_endings in tt in
      ground (arith, round_then endless t d [] p.0 none_later, round_then endless t d _ p.0 later)
