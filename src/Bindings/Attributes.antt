-- ===== src/Bindings/Attributes.antt =====
-- Attributes of a bound class (`def_readwrite` in src/tgcalls.cpp), by name.
use mathlib.Core.Option
use mqtgcalls.Prelude.{Bytes, List, [], ◌∷◌, Option, none, some, if◌then◌else◌}
use mqtgcalls.Bindings.Casters.{Caster, Casters, ◌===◌, ◌>>=◌}

-- `none` is an exception of Python.
pub record Attribute (V S : Type 0) : Type 0 where
  pub name : Bytes
  pub read : S → Option V
  pub write : V → S → Option S

abbrev pub cast_unbound : {V A : Type 0} → Casters V → List A → Option V
cast_unbound casters [] = some casters.empty_list
cast_unbound casters (x ∷ xs) = none

module _ {V S : Type 0} where
  -- `.def_readwrite(name, &S::member)`, with the caster of the member's type.
  abbrev pub def_readwrite :
      {A : Type 0} → Bytes → Caster V A → (S → A) → (A → S → S) → Attribute V S
  def_readwrite name caster member put = record {
    name = name;
    read = λ s. some (caster.cast (member s));
    write = λ v s. Option.map (λ a. put a s) (caster.load v);
  }

  -- The same for a list of structs of a class that is not bound: only the empty list converts.
  abbrev pub def_readwrite_unbound :
      {A : Type 0} → Bytes → Casters V → (S → List A) → (List A → S → S) → Attribute V S
  def_readwrite_unbound name casters member put = record {
    name = name;
    read = λ s. cast_unbound casters (member s);
    write = λ v s. if casters.is_empty_list v then some (put [] s) else none;
  }

  unfoldable pub get_attribute : List (Attribute V S) → Bytes → S → Option V
  unfolding ◌===◌
  get_attribute [] name s = none
  get_attribute (a ∷ rest) name s = if a.name === name then a.read s else get_attribute rest name s

  unfoldable pub set_attribute : List (Attribute V S) → Bytes → V → S → Option S
  unfolding ◌===◌
  set_attribute [] name v s = none
  set_attribute (a ∷ rest) name v s =
      if a.name === name then a.write v s else set_attribute rest name v s

  abbrev pub names : List (Attribute V S) → List Bytes
  names [] = []
  names (a ∷ rest) = a.name ∷ names rest

  -- Every attribute in turn is read from the first object, by its name, and written to the second.
  unfoldable pub copy_names : List (Attribute V S) → List Bytes → S → S → Option S
  copy_names table [] source target = some target
  copy_names table (n ∷ ns) source target = do
    v ← get_attribute table n source
    target' ← set_attribute table n v target
    copy_names table ns source target'

  -- The attributes of an object in the order of their definition.
  unfoldable pub attributes_of : List (Attribute V S) → S → Option (List V)
  attributes_of [] s = some []
  attributes_of (a ∷ rest) s = do v ← a.read s; vs ← attributes_of rest s; some (v ∷ vs)
