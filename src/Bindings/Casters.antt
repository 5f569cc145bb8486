-- ===== src/Bindings/Casters.antt =====
-- What pybind11 gives to src/tgcalls.cpp: conversions between values of Python and of C++, and the
-- comparison of names.
use mqtgcalls.Prelude.{
  ℕ, Bytes, Bool, true, false, List, [], ◌∷◌, ◌&&◌, ◌≡◌, Option, none, some, ℤ, pos, negsuc, ◌==◌,
  ltb, ◌^◌, length,
}
use mqtgcalls.RtcServer.{RtcServer}
use mqtgcalls.NativeInstance.Defs.{Ref, ConnectionMode}

-- A type caster: `load` fails on a value of another kind.
pub record Caster (V A : Type 0) : Type 0 where
  pub load : V → Option A
  pub cast : A → V

-- The numbers that `int` and `uint32_t` have, and the keys that `std::array<uint8_t, 256>` has.
abbrev pub is_int : ℤ → Bool
is_int (pos n) = ltb n (2 ^ 31)
is_int (negsuc n) = ltb n (2 ^ 31)

abbrev pub is_uint32 : ℕ → Bool
is_uint32 n = ltb n (2 ^ 32)

abbrev pub are_uint32 : List ℕ → Bool
are_uint32 [] = true
are_uint32 (n ∷ ns) = is_uint32 n && are_uint32 ns

abbrev pub are_uint8 : Bytes → Bool
are_uint8 [] = true
are_uint8 (n ∷ ns) = ltb n 256 && are_uint8 ns

abbrev pub is_auth_key : Bytes → Bool
is_auth_key key = length key == 256 && are_uint8 key

-- Pairs of strings that are all texts.
abbrev pub are_texts : (Bytes → Bool) → List (Bytes × Bytes) → Bool
are_texts is_text [] = true
are_texts is_text (p ∷ ps) = is_text p.0 && is_text p.1 && are_texts is_text ps

-- The casters that the bindings use, over the values of Python: what `cast` makes can be loaded.
-- A `std::string` becomes a `str` only if it is a text in UTF-8 (`is_text`).
-- `None` loads as an empty `std::function` and as a null `shared_ptr`; a descriptor of one class is
-- none of the other.
pub record Casters (V : Type 0) : Type 0 where
  pub is_text : Bytes → Bool
  pub bool : Caster V Bool
  pub double : Caster V ℕ
  pub string : Caster V Bytes
  pub uint8s : Caster V Bytes
  pub pairs : Caster V (List (Bytes × Bytes))
  pub function : Caster V (Option Ref)
  pub file_descriptor : Caster V (Option Ref)
  pub raw_descriptor : Caster V (Option Ref)
  pub servers : Caster V (List RtcServer)
  pub mode : Caster V ConnectionMode
  pub int : Caster V ℤ
  pub uint32 : Caster V ℕ
  pub uint32s : Caster V (List ℕ)
  pub auth_key : Caster V Bytes
  pub empty_list : V
  pub is_empty_list : V → Bool
  pub bool-loads : (a : Bool) → bool.load (bool.cast a) ≡ some a
  pub double-loads : (a : ℕ) → double.load (double.cast a) ≡ some a
  pub string-loads : (a : Bytes) → is_text a ≡ true → string.load (string.cast a) ≡ some a
  pub uint8s-loads : (a : Bytes) → are_uint8 a ≡ true → uint8s.load (uint8s.cast a) ≡ some a
  pub pairs-loads :
      (a : List (Bytes × Bytes)) → are_texts is_text a ≡ true → pairs.load (pairs.cast a) ≡ some a
  pub function-loads : (a : Option Ref) → function.load (function.cast a) ≡ some a
  pub file_descriptor-loads :
      (a : Option Ref) → file_descriptor.load (file_descriptor.cast a) ≡ some a
  pub raw_descriptor-loads : (a : Option Ref) → raw_descriptor.load (raw_descriptor.cast a) ≡ some a
  pub servers-loads : (a : List RtcServer) → servers.load (servers.cast a) ≡ some a
  pub mode-loads : (a : ConnectionMode) → mode.load (mode.cast a) ≡ some a
  pub int-loads : (a : ℤ) → is_int a ≡ true → int.load (int.cast a) ≡ some a
  pub uint32-loads : (a : ℕ) → is_uint32 a ≡ true → uint32.load (uint32.cast a) ≡ some a
  pub uint32s-loads : (a : List ℕ) → are_uint32 a ≡ true → uint32s.load (uint32s.cast a) ≡ some a
  pub auth_key-loads : (a : Bytes) → is_auth_key a ≡ true → auth_key.load (auth_key.cast a) ≡ some a
  pub is_empty_list_lem : is_empty_list empty_list ≡ true
  pub raw-file : (r : Ref) → file_descriptor.load (raw_descriptor.cast (some r)) ≡ none
  pub none-file : file_descriptor.load (raw_descriptor.cast none) ≡ some none

infix 50 ◌===◌
unfoldable pub ◌===◌ : Bytes → Bytes → Bool
[] === [] = true
(c ∷ cs) === (e ∷ es) = c == e && cs === es
[] === (e ∷ es) = false
(c ∷ cs) === [] = false

-- Conversions one after the other; the first that fails raises an exception.
infixl 5 ◌>>=◌
abbrev pub ◌>>=◌ : {A B : Type 0} → Option A → (A → Option B) → Option B
none >>= f = none
some a >>= f = f a
