-- ===== src/Tests/Values.antt =====
-- Values of Python with their conversions.
use mqtgcalls.Prelude.{
  ℕ, Bytes, Bool, true, false, List, [], ◌≡◌, refl, ltb, ◌&&◌, ◌∷◌, if◌then◌else◌, Option, none,
  some, ℤ,
}
use mqtgcalls.RtcServer.{RtcServer}
use mqtgcalls.NativeInstance.Defs.{Ref, ConnectionMode}
use mqtgcalls.Bindings.Dispatch.{Overload, Request, Resolution}
use mqtgcalls.Bindings.Casters.{Casters, is_int, is_uint32, are_uint32, is_auth_key}

pub data Value : Type 0 where
  py_none : Value
  of_bool : Bool → Value
  of_int : ℤ → Value
  of_number : ℕ → Value
  of_float : ℕ → Value
  of_string : Bytes → Value
  of_bytes : Bytes → Value
  of_numbers : List ℕ → Value
  of_pairs : List (Bytes × Bytes) → Value
  of_callable : Ref → Value
  of_file_descriptor : Ref → Value
  of_raw_descriptor : Ref → Value
  of_servers : List RtcServer → Value
  of_mode : ConnectionMode → Value

abbrev load_bool : Value → Option Bool
load_bool (of_bool a) = some a
load_bool v = none

abbrev load_int : Value → Option ℤ
load_int (of_int a) = if is_int a then some a else none
load_int v = none

pub load_int-cast : (a : ℤ) → is_int a ≡ true → load_int (of_int a) ≡ some a
load_int-cast a h = rw h

abbrev load_uint32 : Value → Option ℕ
load_uint32 (of_number a) = if is_uint32 a then some a else none
load_uint32 v = none

pub load_uint32-cast : (a : ℕ) → is_uint32 a ≡ true → load_uint32 (of_number a) ≡ some a
load_uint32-cast a h = rw h

abbrev load_double : Value → Option ℕ
load_double (of_float a) = some a
load_double v = none

-- Texts in ASCII.
abbrev are_ascii : Bytes → Bool
are_ascii [] = true
are_ascii (n ∷ ns) = ltb n 128 && are_ascii ns

abbrev load_string : Value → Option Bytes
load_string (of_string a) = some a
load_string v = none

abbrev load_uint8s : Value → Option Bytes
load_uint8s (of_bytes a) = some a
load_uint8s v = none

abbrev load_uint32s : Value → Option (List ℕ)
load_uint32s (of_numbers a) = if are_uint32 a then some a else none
load_uint32s v = none

pub load_uint32s-cast : (a : List ℕ) → are_uint32 a ≡ true → load_uint32s (of_numbers a) ≡ some a
load_uint32s-cast a h = rw h

abbrev load_pairs : Value → Option (List (Bytes × Bytes))
load_pairs (of_pairs a) = some a
load_pairs v = none

abbrev load_servers : Value → Option (List RtcServer)
load_servers (of_servers a) = some a
load_servers v = none

abbrev load_auth_key : Value → Option Bytes
load_auth_key (of_bytes a) = if is_auth_key a then some a else none
load_auth_key v = none

pub load_auth_key-cast : (a : Bytes) → is_auth_key a ≡ true → load_auth_key (of_bytes a) ≡ some a
load_auth_key-cast a h = rw h

abbrev load_mode : Value → Option ConnectionMode
load_mode (of_mode a) = some a
load_mode v = none

abbrev load_function : Value → Option (Option Ref)
load_function py_none = some none
load_function (of_callable r) = some (some r)
load_function v = none

abbrev cast_function : Option Ref → Value
cast_function none = py_none
cast_function (some r) = of_callable r

pub load_function-cast : (r : Option Ref) → load_function (cast_function r) ≡ some r
load_function-cast none = refl
load_function-cast (some r) = refl

abbrev load_file_descriptor : Value → Option (Option Ref)
load_file_descriptor py_none = some none
load_file_descriptor (of_file_descriptor r) = some (some r)
load_file_descriptor v = none

abbrev cast_file_descriptor : Option Ref → Value
cast_file_descriptor none = py_none
cast_file_descriptor (some r) = of_file_descriptor r

pub load_file_descriptor-cast :
    (r : Option Ref) → load_file_descriptor (cast_file_descriptor r) ≡ some r
load_file_descriptor-cast none = refl
load_file_descriptor-cast (some r) = refl

abbrev load_raw_descriptor : Value → Option (Option Ref)
load_raw_descriptor py_none = some none
load_raw_descriptor (of_raw_descriptor r) = some (some r)
load_raw_descriptor v = none

abbrev cast_raw_descriptor : Option Ref → Value
cast_raw_descriptor none = py_none
cast_raw_descriptor (some r) = of_raw_descriptor r

pub load_raw_descriptor-cast :
    (r : Option Ref) → load_raw_descriptor (cast_raw_descriptor r) ≡ some r
load_raw_descriptor-cast none = refl
load_raw_descriptor-cast (some r) = refl

abbrev is_no_element : Value → Bool
is_no_element (of_numbers []) = true
is_no_element (of_pairs []) = true
is_no_element (of_servers []) = true
is_no_element v = false

abbrev pub casters : Casters Value
casters = record {
  is_text = are_ascii;
  bool = record { load = load_bool; cast = of_bool };
  double = record { load = load_double; cast = of_float };
  string = record { load = load_string; cast = of_string };
  uint8s = record { load = load_uint8s; cast = of_bytes };
  pairs = record { load = load_pairs; cast = of_pairs };
  servers = record { load = load_servers; cast = of_servers };
  mode = record { load = load_mode; cast = of_mode };
  int = record { load = load_int; cast = of_int };
  uint32 = record { load = load_uint32; cast = of_number };
  uint32s = record { load = load_uint32s; cast = of_numbers };
  auth_key = record { load = load_auth_key; cast = of_bytes };
  function = record { load = load_function; cast = cast_function };
  file_descriptor = record { load = load_file_descriptor; cast = cast_file_descriptor };
  raw_descriptor = record { load = load_raw_descriptor; cast = cast_raw_descriptor };
  bool-loads = λ a. refl;
  double-loads = λ a. refl;
  string-loads = λ a h. refl;
  uint8s-loads = λ a h. refl;
  pairs-loads = λ a h. refl;
  servers-loads = λ a. refl;
  mode-loads = λ a. refl;
  function-loads = load_function-cast;
  file_descriptor-loads = load_file_descriptor-cast;
  raw_descriptor-loads = load_raw_descriptor-cast;
  int-loads = load_int-cast;
  uint32-loads = load_uint32-cast;
  uint32s-loads = load_uint32s-cast;
  auth_key-loads = load_auth_key-cast;
  empty_list = of_numbers [];
  is_empty_list = is_no_element;
  is_empty_list_lem = refl;
  raw-file = λ r. refl;
  none-file = refl;
}

abbrev first_taken : List (Overload Value) → List Value → Option Request
first_taken [] args = none
first_taken (o ∷ rest) args = elim (o.convert args) [
  | some r ↦ some r
  | none ↦ first_taken rest args
]

pub first_taken-first :
    (o : Overload Value) (rest : List (Overload Value)) (args : List Value) {r : Request}
    → o.convert args ≡ some r
    → first_taken (o ∷ rest) args ≡ some r
first_taken-first o rest args taken = rw taken

pub first_taken-next :
    (o : Overload Value) (rest : List (Overload Value)) (args : List Value) {r : Request}
    → o.convert args ≡ none
    → first_taken rest args ≡ some r
    → first_taken (o ∷ rest) args ≡ some r
first_taken-next o rest args refused later = rw (refused, later)

abbrev pub resolution : Resolution Value
resolution = record {
  resolve = first_taken;
  resolve-first = first_taken-first;
  resolve-next = first_taken-next;
}
