-- ===== src/Schema/Laws.antt =====
-- The schemas and default values of provider/schema_defaults.go, key by key.
use terraform_provider_nixos.Base.{
  String, ◌≡◌, refl, sym, ap, ◌∙◌, false, [], ◌∷◌, Option, none, some, Outcome, ok, >>=-eq-ok,
  arith, ◌=ₛ◌, eq_iff, Bool-cases, inl, inr,
}
use terraform_provider_nixos.Base.Assoc.{Map, lookup, put_all, IsMap, lookup-put_all}
use terraform_provider_nixos.Settings.{
  Value, Fields, list, map, item, none_left, end, get_field, put_field,
}
use terraform_provider_nixos.Settings.Laws.{get_field-put}
use terraform_provider_nixos.Schema.{
  Schema, schema, schema_map_extend, default_of, default_fields, default_block,
  default_map_from_schema, subschema,
}

abbrev pub or_else : Option Schema → Option Schema → Option Schema
or_else (some s) o = some s
or_else none o = o

or_else_cases :
    (o q : Option Schema)
    → (elim o as (λ _. Option Schema) [ none ↦ q | some v ↦ some v ]) ≡ or_else o q
or_else_cases none q = refl
or_else_cases (some s) q = refl

or_else-none : (o : Option Schema) → or_else o none ≡ o
or_else-none none = refl
or_else-none (some s) = refl

-- Of two schemas without double attributes, the extended one has the attributes of both, those of
-- the extension where both have one.
pub lookup-schema_map_extend :
    (k : String) (original extension : Map Schema)
    → IsMap original
    → IsMap extension
    → lookup k (schema_map_extend original extension)
      ≡ or_else (lookup k extension) (lookup k original)
unfolding schema_map_extend lookup
lookup-schema_map_extend k original extension h h' =
    lookup-put_all k (put_all [] original) extension h'
    ∙ or_else_cases (lookup k extension) (lookup k (put_all [] original))
    ∙ ap (or_else (lookup k extension)) (
        lookup-put_all k [] original h
        ∙ or_else_cases (lookup k original) none
        ∙ or_else-none (lookup k original))

default_fields-absent :
    (k : String) (acc out : Fields) (sub : Map Schema)
    → lookup k sub ≡ none
    → default_fields acc sub ≡ ok out
    → get_field k out ≡ get_field k acc
unfolding default_fields lookup
default_fields-absent k acc out [] n e = ap (get_field k) cc
default_fields-absent k acc out ((j, s) ∷ sub) n e =
    let q = >>=-eq-ok (default_of s) (λ v. default_fields (put_field j v acc) sub) e in
    let other : (j =ₛ k) ≡ false = ground arith in
    default_fields-absent k (put_field j q.0 acc) out sub (ground arith) q.2
    ∙ ground (arith, get_field-put j k q.0 acc)

same_fields :
    {a b : Fields} → ok (list (item (map a) none_left)) ≡ ok (list (item (map b) none_left)) → a ≡ b
same_fields {a} {b} e = cc

same_value : {a b : Outcome Value} → ok a ≡ ok b → a ≡ b
same_value e = cc

default_fields-present :
    (k : String) (acc out : Fields) (sub : Map Schema) (s : Schema)
    → IsMap sub
    → lookup k sub ≡ some s
    → default_fields acc sub ≡ ok out
    → (v : Value) × (default_of s ≡ ok v) × (get_field k out ≡ some v)
unfolding default_fields lookup
default_fields-present k acc out [] s h l e = cc
default_fields-present k acc out ((j, t) ∷ sub) s h l e =
    let q = >>=-eq-ok (default_of t) (λ v. default_fields (put_field j v acc) sub) e in
    elim (Bool-cases (j =ₛ k)) [
      | inl same ↦
          let eq : j ≡ k = (eq_iff j k).0 same in
          let found : some t ≡ some s = ground arith in
          let ts : t ≡ s = cc in
          let own : get_field k (put_field j q.0 acc) ≡ some q.0 =
            ground (arith, get_field-put j k q.0 acc) in
          (
            q.0,
            ap default_of (sym ts) ∙ q.1,
            default_fields-absent k (put_field j q.0 acc) out sub (rw (sym eq) h.0) q.2 ∙ own,
          )
      | inr other ↦ default_fields-present k (put_field j q.0 acc) out sub s h.1 (ground arith) q.2
    ]

-- A default: what the default function returns, or the plain one if there is no function.
abbrev pub IsDefault : Option (Outcome Value) → Value → Value → Type 0
IsDefault none plain v = v ≡ plain
IsDefault (some returned) plain v = returned ≡ ok v

-- What is under a key of a default map, by the attribute of this key.
abbrev pub IsDefaulted : Option Schema → Option Value → Type 0
IsDefaulted none o = o ≡ none
IsDefaulted (some (schema t e)) o =
    (v : Value) × (o ≡ some v) × IsDefault t.default_func t.default v

IsDefault-cases :
    (f : Option (Outcome Value)) (plain v : Value)
    → (elim f as (λ _. Outcome Value) [ none ↦ ok plain | some r ↦ r ]) ≡ ok v
    → IsDefault f plain v
IsDefault-cases none plain v e = cc
IsDefault-cases (some r) plain v e = e

default_of-IsDefaulted :
    (s : Schema) (v : Value) (o : Option Value)
    → default_of s ≡ ok v
    → o ≡ some v
    → IsDefaulted (some s) o
unfolding default_of
default_of-IsDefaulted (schema t el) v o e h = (v, h, IsDefault-cases t.default_func t.default v e)

default_fields-IsDefaulted :
    (k : String) (out : Fields) (sub : Map Schema) (found : Option Schema)
    → IsMap sub
    → lookup k sub ≡ found
    → default_fields end sub ≡ ok out
    → IsDefaulted found (get_field k out)
unfolding get_field
default_fields-IsDefaulted k out sub none h l e = default_fields-absent k end out sub l e
default_fields-IsDefaulted k out sub (some s) h l e =
    let q = default_fields-present k end out sub s h l e in
    default_of-IsDefaulted s q.0 (get_field k out) q.1 q.2

-- If a resource's schema has no attribute twice and its default map is returned, then that map has
-- exactly the attributes of the schema, each with what its default function returns, or with its
-- plain default if it has no such function.
pub default_map-default :
    (k : String) (parent : Schema) (sub : Map Schema) (fs : Fields)
    → subschema parent ≡ ok sub
    → IsMap sub
    → default_map_from_schema parent ≡ ok (ok (list (item (map fs) none_left)))
    → IsDefaulted (lookup k sub) (get_field k fs)
unfolding default_map_from_schema default_block
default_map-default k parent sub fs p h d =
    let block : default_block sub ≡ ok (list (item (map fs) none_left)) =
      same_value (sym (rw (p, default_map_from_schema) refl) ∙ d) in
    let q = >>=-eq-ok (default_fields end sub) (λ fs. ok (list (item (map fs) none_left))) block in
    default_fields-IsDefaulted k fs sub (lookup k sub) h refl (q.1 ∙ ap ok (same_fields q.2))
