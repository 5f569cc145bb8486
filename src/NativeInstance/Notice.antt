-- ===== src/NativeInstance/Notice.antt =====
-- The start-up notice over the objects that a process makes (the constructor in
-- src/NativeInstance.cpp, with the global `noticeDisplayed`).
use mqtgcalls.Prelude.{ℕ, suc, Bytes, Bool, true, false, List, [], ◌∷◌, ◌++◌, ◌≡◌, refl, arith}
use mqtgcalls.NativeInstance.Defs.{Effect, print, initialize_ssl, notice, new_instance}

-- Objects made one after the other, each with its two arguments.
unfoldable pub make_all : (project_ver : Bytes) → List (Bool × Bytes) → Bool → List Effect × Bool
make_all project_ver [] noticed = ([], noticed)
make_all project_ver ((std_err, path) ∷ more) noticed =
    let (object, es, noticed') = new_instance project_ver noticed std_err path in
    let (fs, noticed'') = make_all project_ver more noticed' in (es ++ fs, noticed'')

-- The texts printed, and how often SSL was initialized.
unfoldable pub printed : List Effect → List Bytes
printed [] = []
printed (print text ∷ es) = text ∷ printed es
printed (e ∷ es) = printed es

unfoldable pub initialized : List Effect → ℕ
initialized [] = 0
initialized (initialize_ssl ∷ es) = suc (initialized es)
initialized (e ∷ es) = initialized es

abbrev pub length_of : List (Bool × Bytes) → ℕ
length_of [] = 0
length_of (x ∷ xs) = suc (length_of xs)

later_silent :
    (project_ver : Bytes) (objects : List (Bool × Bytes))
    → (printed (make_all project_ver objects true).0 ≡ [])
      × (initialized (make_all project_ver objects true).0 ≡ length_of objects)
      × ((make_all project_ver objects true).1 ≡ true)
unfolding make_all new_instance printed initialized
later_silent project_ver [] = (refl, refl, refl)
later_silent project_ver ((std_err, path) ∷ more) = ground (arith, later_silent project_ver more)

-- Of the objects that a process makes one after the other, each initializes SSL, and all of them
-- together print the notice once.
pub notice_once :
    (project_ver : Bytes) (first : Bool × Bytes) (more : List (Bool × Bytes))
    → let (effects, noticed) = make_all project_ver (first ∷ more) false in
      (printed effects ≡ printed (notice project_ver))
      × (initialized effects ≡ suc (length_of more))
      × (noticed ≡ true)
unfolding make_all new_instance printed initialized notice
notice_once project_ver first more = ground (arith, later_silent project_ver more)
