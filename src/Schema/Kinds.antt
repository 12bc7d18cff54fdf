-- ===== src/Schema/Kinds.antt =====
-- The types of the values that `ResourceData.Get` of provider/resource.go returns.
use terraform_provider_nixos.Base.{
  ℕ, ◌≡◌, refl, String, [], ◌∷◌, Option, none, some, Outcome, ok, err, panic, Option-cases, inl,
  inr, Bool, arith, eq_iff,
}
use terraform_provider_nixos.Base.Assoc.{Map, lookup}
use terraform_provider_nixos.Settings.{
  ResourceBox, Value, Items, nil, bool, int, str, list, set, map, end, field, item, none_left,
}
use terraform_provider_nixos.Schema.{
  Kind, type_bool, type_int, type_string, type_list, type_map, type_set, Elem, Schema, schema,
  traits_of, is_empty_value, or_default, as_default, value_with, or_raise, get,
}

-- The value is one of the SDK's for an attribute of this type.
abbrev pub HasKind : Kind → Value → Type 0
HasKind type_bool (bool b) = Unit
HasKind type_int (int n) = Unit
HasKind type_string (str s) = Unit
HasKind type_list (list items) = Unit
HasKind type_map (map fs) = Unit
HasKind type_set (set items) = Unit
HasKind kind v = ⊥

-- A default function returns a value of the attribute's type, a list for a set.
abbrev pub IsDefault : Kind → Option (Outcome Value) → Type 0
IsDefault type_set (some (ok (list items))) = Unit
IsDefault type_set (some o) = ⊥
IsDefault kind (some (ok v)) = HasKind kind v
IsDefault kind (some (err e)) = ⊥
IsDefault kind (some (panic p)) = ⊥
IsDefault kind none = Unit

abbrev pub IsSound : Schema → Type 0
IsSound s = IsDefault (traits_of s).kind (traits_of s).default_func

-- All attributes of the table have sound defaults.
abbrev pub AllSound : Map Schema → Type 0
AllSound [] = Unit
AllSound ((k, s) ∷ m) = IsSound s × AllSound m

pub AllSound-lookup :
    (k : String) (m : Map Schema) (s : Schema) → AllSound m → lookup k m ≡ some s → IsSound s
unfolding lookup
AllSound-lookup k [] s h e = cc
AllSound-lookup k ((j, t) ∷ m) s h e = ground (arith, AllSound-lookup k m s h.1)

-- The box holds a value of its type for each attribute, as the SDK's does.
abbrev pub Conforms : Map Schema → ResourceBox → Type 0
Conforms [] box = Unit
Conforms ((k, s) ∷ m) box = HasKind (traits_of s).kind (box k) × Conforms m box

Conforms-lookup :
    (k : String) (m : Map Schema) (box : ResourceBox) (s : Schema)
    → Conforms m box
    → lookup k m ≡ some s
    → HasKind (traits_of s).kind (box k)
unfolding lookup
Conforms-lookup k [] box s h e = cc
Conforms-lookup k ((j, t) ∷ m) box s h e = ground (arith, eq_iff j k, Conforms-lookup k m box s h.1)

-- A value of the type is returned.
abbrev pub Yields : Kind → Outcome Value → Type 0
Yields kind (ok v) = HasKind kind v
Yields kind (err e) = ⊥
Yields kind (panic p) = ⊥

-- the same of the traits one by one
module _ (new_set : Items → Items) (o r c : Bool) (least most : ℕ) (d : Value) (e : Elem) where
  abbrev of_traits : Kind → Option (Outcome Value) → Schema
  of_traits kind f =
      schema
        (record {
          kind = kind;
          optional = o;
          required = r;
          computed = c;
          min_items = least;
          max_items = most;
          default = d;
          default_func = f;
        })
        e

  of_traits-Yields :
      (kind : Kind) (f : Option (Outcome Value)) (v : Value)
      → IsDefault kind f
      → HasKind kind v
      → Yields kind (value_with new_set (of_traits kind f) v)
  unfolding value_with is_empty_value or_default or_raise as_default
  of_traits-Yields type_bool none (bool b) h k = tt
  of_traits-Yields type_bool (some (ok w)) (bool b) h k = tt
  of_traits-Yields type_int none (int b) h k = tt
  of_traits-Yields type_int (some (ok w)) (int b) h k = tt
  of_traits-Yields type_string none (str b) h k = tt
  of_traits-Yields type_string (some (ok w)) (str b) h k = tt
  of_traits-Yields type_list none (list b) h k = tt
  of_traits-Yields type_list (some (ok w)) (list none_left) h k = h
  of_traits-Yields type_list (some (ok w)) (list (item b rest)) h k = tt
  of_traits-Yields type_map none (map b) h k = tt
  of_traits-Yields type_map (some (ok w)) (map end) h k = h
  of_traits-Yields type_map (some (ok w)) (map (field i b rest)) h k = tt
  of_traits-Yields type_set none (set b) h k = tt
  of_traits-Yields type_set (some (ok (list w))) (set none_left) h k = tt
  of_traits-Yields type_set (some (ok (list w))) (set (item b rest)) h k = tt
  of_traits-Yields kind f v h k = ground arith

value_with-Yields :
    (new_set : Items → Items) (s : Schema) (v : Value)
    → IsSound s
    → HasKind (traits_of s).kind v
    → Yields (traits_of s).kind (value_with new_set s v)
value_with-Yields new_set (schema t e) v h k =
    of_traits-Yields new_set t.optional t.required t.computed t.min_items t.max_items t.default e
      t.kind t.default_func v h k

pub get-HasKind :
    (new_set : Items → Items) (m : Map Schema) (box : ResourceBox) (k : String) (s : Schema)
    → AllSound m
    → Conforms m box
    → lookup k m ≡ some s
    → Yields (traits_of s).kind (get new_set m box k)
unfolding get
get-HasKind new_set m box k s h c e =
    rw (e, get)
      (value_with-Yields new_set s (box k) (AllSound-lookup k m s h e)
        (Conforms-lookup k m box s c e))

Yields-ok : (kind : Kind) (o : Outcome Value) → Yields kind o → (v : Value) × (o ≡ ok v)
Yields-ok kind (ok v) h = (v, refl)
Yields-ok kind (err e) h = absurd h
Yields-ok kind (panic p) h = absurd h

-- Of a key without an attribute the value is nil.
pub get_total :
    (new_set : Items → Items) (m : Map Schema) (box : ResourceBox) (k : String)
    → AllSound m
    → Conforms m box
    → (v : Value) × (get new_set m box k ≡ ok v)
get_total new_set m box k h c = elim (Option-cases (lookup k m)) [
  | inl e ↦ (nil, unfold get in rw (e, get) refl)
  | inr (s, e) ↦ Yields-ok _ _ (get-HasKind new_set m box k s h c e)
]
