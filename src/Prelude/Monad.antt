-- ===== src/Prelude/Monad.antt =====
-- Code that changes a state `S` and calls out: it returns its result, the new state and the calls
-- that it made, oldest first.
use mathlib.Core.Bool.{Bool, true, false}
use mathlib.Core.List.{List, [], ◌∷◌, ◌++◌}

abbrev pub M : Type 0 → Type 0 → Type 0 → Type 0
M S E A = S → A × S × List E

module _ {S E : Type 0} where
  abbrev pub pure : {A : Type 0} → A → M S E A
  pure a s = (a, s, [])

  infixl 5 ◌>>=◌ ◌>>◌
  abbrev pub ◌>>=◌ : {A B : Type 0} → M S E A → (A → M S E B) → M S E B
  ◌>>=◌ m f s = let (a, s', es) = m s in let (b, s'', fs) = f a s' in (b, s'', es ++ fs)

  abbrev pub ◌>>◌ : {B : Type 0} → M S E (Unit {0}) → M S E B → M S E B
  m >> k = m >>= λ _. k

  abbrev pub get : M S E S
  get s = (s, s, [])

  abbrev pub modify : (S → S) → M S E (Unit {0})
  modify f s = (tt, f s, [])

  abbrev pub emit : E → M S E (Unit {0})
  emit e s = (tt, s, e ∷ [])

  -- The branches wait for the state, so that a proof sees a choice between results.
  infix 1 if◌then◌else◌
  abbrev pub if◌then◌else◌ : {A : Type 0} → Bool → M S E A → M S E A → M S E A
  if◌then◌else◌ b m n s = elim b [ true ↦ m s | false ↦ n s ]

  abbrev pub when : Bool → M S E (Unit {0}) → M S E (Unit {0})
  when b m s = elim b [ true ↦ m s | false ↦ (tt, s, []) ]
