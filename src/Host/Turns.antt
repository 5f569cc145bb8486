-- ===== src/Host/Turns.antt =====
-- Two worker threads side by side on one device, their rounds in any order. A device that keeps the
-- halves of its two threads apart fills `Halves`.
use mqtgcalls.Prelude.{Bool, true, false, List, [], ◌∷◌, ◌++◌, ◌≡◌, refl, sym, arith}
use mqtgcalls.Prelude.Monad.{M, pure, ◌>>=◌, if◌then◌else◌}
use mqtgcalls.Host.{Event}

-- The rounds of the two threads over a device `S`, each with what it meets, a `T`. `with_play d e`
-- is `d` with the half of the playout thread as `e` has it.
pub record Halves (S T : Type 0) : Type 0 where
  pub play : T → M S Event Bool
  pub rec : T → M S Event Bool
  pub with_play : S → S → S
  pub with_rec : S → S → S
  pub play_owns : (t : T) (d : S) → (play t d).1 ≡ with_play d (play t d).1
  pub rec_owns : (t : T) (d : S) → (rec t d).1 ≡ with_rec d (rec t d).1
  pub play_ignores :
      (t : T) (d e : S)
      → play t (with_rec d e) ≡ (let (go, d', es) = play t d in (go, with_rec d' e, es))
  pub rec_ignores :
      (t : T) (d e : S)
      → rec t (with_play d e) ≡ (let (go, d', es) = rec t d in (go, with_play d' e, es))
  pub with_play_self : (d : S) → with_play d d ≡ d
  pub with_rec_self : (d : S) → with_rec d d ≡ d
  pub with_rec_rec : (d e f : S) → with_rec (with_rec d e) f ≡ with_rec d f
  pub with_rec_play : (d e f : S) → with_rec d (with_play e f) ≡ with_rec d e

-- Whose round it is.
pub data Turn (T : Type 0) : Type 0 where
  play_turn rec_turn : T → Turn T

module _ {T : Type 0} where
  unfoldable pub play_turns : List (Turn T) → List T
  play_turns [] = []
  play_turns (play_turn t ∷ turns) = t ∷ play_turns turns
  play_turns (rec_turn t ∷ turns) = play_turns turns

  unfoldable pub rec_turns : List (Turn T) → List T
  rec_turns [] = []
  rec_turns (play_turn t ∷ turns) = rec_turns turns
  rec_turns (rec_turn t ∷ turns) = t ∷ rec_turns turns

module _ {S T : Type 0} where
  -- `while (round()) {}` over the rounds that there is time for.
  unfoldable pub loop : (T → M S Event Bool) → List T → M S Event Bool
  loop round [] = pure true
  loop round (t ∷ ts) = do more ← round t; if more then loop round ts else pure false

  -- The same from a point where the thread runs, or has returned and does nothing.
  abbrev pub loop_if : Bool → (T → M S Event Bool) → List T → M S Event Bool
  loop_if on round ts d = elim on [ true ↦ loop round ts d | false ↦ (false, d, []) ]

  abbrev pub round_if : Bool → (T → M S Event Bool) → T → M S Event Bool
  round_if on round t d = elim on [ true ↦ round t d | false ↦ (false, d, []) ]

  loop_if-turn :
      (on : Bool) (round : T → M S Event Bool) (t : T) (ts : List T) (d : S)
      → loop_if on round (t ∷ ts) d ≡ (
          let (go, d', es) = round_if on round t d in
          let (go', d'', fs) = loop_if go round ts d' in (go', d'', es ++ fs))
  unfolding loop
  loop_if-turn true round t ts d = ground arith
  loop_if-turn false round t ts d = refl

  loop_ignores :
      (round : T → M S Event Bool) (change : S → S)
      → ((t : T) (d : S)
          → round t (change d) ≡ (let (go, d', es) = round t d in (go, change d', es)))
      → (ts : List T) (d : S)
      → loop round ts (change d) ≡ (let (go, d', es) = loop round ts d in (go, change d', es))
  unfolding loop
  loop_ignores round change ignores [] d = refl
  loop_ignores round change ignores (t ∷ ts) d =
      ground (arith, ignores t d, loop_ignores round change ignores ts (round t d).1)

module _ {S T : Type 0} (h : Halves S T) where
  open h use {play, rec, with_play, with_rec}

  -- The two threads together: whether each still runs, its calls, and the device.
  unfoldable pub run_turns :
      List (Turn T) → (play_on rec_on : Bool) → S → (Bool × List Event) × (Bool × List Event) × S
  run_turns [] play_on rec_on d = ((play_on, []), (rec_on, []), d)
  run_turns (play_turn t ∷ turns) play_on rec_on d =
      let (go, d', es) = round_if play_on play t d in
      let ((p, ps), recorded, d'') = run_turns turns go rec_on d' in ((p, es ++ ps), recorded, d'')
  run_turns (rec_turn t ∷ turns) play_on rec_on d =
      let (go, d', es) = round_if rec_on rec t d in
      let (played, (r, rs), d'') = run_turns turns play_on go d' in (played, (r, es ++ rs), d'')

  -- One round of a side, run or not, as the other side sees it.
  play_round_owns :
      (on : Bool) (t : T) (d : S) → (round_if on play t d).1 ≡ with_play d (round_if on play t d).1
  play_round_owns true t d = h.play_owns t d
  play_round_owns false t d = sym (h.with_play_self d)

  rec_round_owns :
      (on : Bool) (t : T) (d : S) → (round_if on rec t d).1 ≡ with_rec d (round_if on rec t d).1
  rec_round_owns true t d = h.rec_owns t d
  rec_round_owns false t d = sym (h.with_rec_self d)

  play_loop_ignores :
      (on : Bool) (ts : List T) (d e : S)
      → loop_if on play ts (with_rec d e)
        ≡ (let (go, d', es) = loop_if on play ts d in (go, with_rec d' e, es))
  play_loop_ignores true ts d e =
      loop_ignores play (λ d. with_rec d e) (λ t d. h.play_ignores t d e) ts d
  play_loop_ignores false ts d e = refl

  rec_loop_ignores :
      (on : Bool) (ts : List T) (d e : S)
      → loop_if on rec ts (with_play d e)
        ≡ (let (go, d', es) = loop_if on rec ts d in (go, with_play d' e, es))
  rec_loop_ignores true ts d e =
      loop_ignores rec (λ d. with_play d e) (λ t d. h.rec_ignores t d e) ts d
  rec_loop_ignores false ts d e = refl

  -- What the two threads come to, each on its own.
  abbrev pub apart :
      (ts us : List T) → (play_on rec_on : Bool) → S → (Bool × List Event) × (Bool × List Event) × S
  apart ts us play_on rec_on d =
      let (p, d', ps) = loop_if play_on play ts d in
      let (r, d'', rs) = loop_if rec_on rec us d in ((p, ps), (r, rs), with_rec d' d'')

  -- After a round of one thread, the two on their own go on as from before it.
  apart_play_turn :
      (t : T) (ts us : List T) (p r : Bool) (d : S)
      → (let (go, d', es) = round_if p play t d in
          let ((p', ps), recorded, d'') = apart ts us go r d' in ((p', es ++ ps), recorded, d''))
        ≡ apart (t ∷ ts) us p r d
  apart_play_turn t ts us p r d = ground (
    arith,
    loop_if-turn p play t ts d,
    play_round_owns p t d,
    rec_loop_ignores r us d (round_if p play t d).1,
    h.with_rec_play (loop_if (round_if p play t d).0 play ts (round_if p play t d).1).1
        (loop_if r rec us d).1 (round_if p play t d).1,
  )

  apart_rec_turn :
      (t : T) (ts us : List T) (p r : Bool) (d : S)
      → (let (go, d', es) = round_if r rec t d in
          let (played, (r', rs), d'') = apart ts us p go d' in (played, (r', es ++ rs), d''))
        ≡ apart ts (t ∷ us) p r d
  apart_rec_turn t ts us p r d = ground (
    arith,
    loop_if-turn r rec t us d,
    rec_round_owns r t d,
    play_loop_ignores p ts d (round_if r rec t d).1,
    h.with_rec_rec (loop_if p play ts d).1 (round_if r rec t d).1
        (loop_if (round_if r rec t d).0 rec us (round_if r rec t d).1).1,
  )

  pub run_turns-apart :
      (turns : List (Turn T)) (play_on rec_on : Bool) (d : S)
      → run_turns turns play_on rec_on d
        ≡ apart (play_turns turns) (rec_turns turns) play_on rec_on d
  unfolding run_turns play_turns rec_turns
  run_turns-apart [] true true d = unfold loop in ground (arith, h.with_rec_self d)
  run_turns-apart [] true false d = unfold loop in ground (arith, h.with_rec_self d)
  run_turns-apart [] false true d = unfold loop in ground (arith, h.with_rec_self d)
  run_turns-apart [] false false d = unfold loop in ground (arith, h.with_rec_self d)
  run_turns-apart (play_turn t ∷ turns) p r d =
      rw (run_turns-apart turns (round_if p play t d).0 r (round_if p play t d).1)
        (apart_play_turn t (play_turns turns) (rec_turns turns) p r d)
  run_turns-apart (rec_turn t ∷ turns) p r d =
      rw (run_turns-apart turns p (round_if r rec t d).0 (round_if r rec t d).1)
        (apart_rec_turn t (play_turns turns) (rec_turns turns) p r d)
