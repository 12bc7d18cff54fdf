-- ===== src/Base/Assoc.antt =====
-- Go's `map[string]V` as an association list with one entry for each key, in the order in which a
-- `range` visits it. Go leaves that order open; a map's list stands for one such order.
pub mod Ends
use mathlib.Core.Bool.{Bool, true, false}
use mathlib.Core.List.{List, [], ◌∷◌, ◌++◌, append-nil, append_assoc}
use mathlib.Core.Option.{Option, none, some}
use mathlib.Core.Path.{◌≡◌, refl}
use native.Mathlib.Omega.{arith}
use Prim.Native.String.{String}
use text.Mathlib.Text.{◌==◌}
use text.Mathlib.TextEquality.{eq_iff}
use text.Mathlib.TextPositions.{eq_refl}
use terraform_provider_nixos.Base.Tests.{if◌then◌else◌}

abbrev pub Map {ℓ} : Type ℓ → Type ℓ
Map V = List (String × V)

module _ {ℓ} {V : Type ℓ} where
  -- `v, ok := m[k]`
  unfoldable pub lookup : String → Map V → Option V
  lookup k [] = none
  lookup k ((j, v) ∷ m) = if j == k then some v else lookup k m

  -- `_, ok := m[k]`
  abbrev pub has : String → Map V → Bool
  has k m = elim (lookup k m) [ none ↦ false | some v ↦ true ]

  -- `m[k] = v`
  unfoldable pub put : String → V → Map V → Map V
  put k v [] = (k, v) ∷ []
  put k v ((j, w) ∷ m) = if j == k then (j, v) ∷ m else (j, w) ∷ put k v m

  -- `delete(m, k)`
  unfoldable pub remove : String → Map V → Map V
  remove k [] = []
  remove k ((j, v) ∷ m) = if j == k then m else (j, v) ∷ remove k m

  -- `for k, v := range vs { m[k] = v }`
  unfoldable pub put_all : Map V → Map V → Map V
  put_all m [] = m
  put_all m ((k, v) ∷ vs) = put_all (put k v m) vs

  -- No key occurs twice.
  abbrev pub IsMap : Map V → Type ℓ
  IsMap [] = Unit
  IsMap ((k, v) ∷ m) = (lookup k m ≡ none) × IsMap m

  pub lookup-put :
      (k j : String) (v : V) (m : Map V)
      → lookup j (put k v m) ≡ (if k == j then some v else lookup j m)
  unfolding lookup put
  lookup-put k j v [] = refl
  lookup-put k j v ((i, w) ∷ m) =
      ground (arith, eq_iff k j, eq_iff i k, eq_iff i j, lookup-put k j v m)

  pub lookup-remove :
      (k j : String) (m : Map V)
      → IsMap m
      → lookup j (remove k m) ≡ (if k == j then none else lookup j m)
  unfolding lookup remove
  lookup-remove k j [] h = ground arith
  lookup-remove k j ((i, w) ∷ m) h =
      ground (arith, eq_iff k j, eq_iff i k, eq_iff i j, lookup-remove k j m h.1)

  pub put-IsMap : (k : String) (v : V) (m : Map V) → IsMap m → IsMap (put k v m)
  unfolding lookup put
  put-IsMap k v [] h = (refl, tt)
  put-IsMap k v ((i, w) ∷ m) h =
      ground (arith, eq_iff i k, eq_iff k i, lookup-put k i v m, put-IsMap k v m h.1)

  pub put_all-IsMap : (m vs : Map V) → IsMap m → IsMap (put_all m vs)
  unfolding put_all
  put_all-IsMap m [] h = h
  put_all-IsMap m ((k, v) ∷ vs) h = put_all-IsMap (put k v m) vs (put-IsMap k v m h)

  -- The entries written last are the ones read.
  pub lookup-put_all :
      (j : String) (m vs : Map V)
      → IsMap vs
      → lookup j (put_all m vs)
        ≡ (elim (lookup j vs) as (λ _. Option V) [ none ↦ lookup j m | some v ↦ some v ])
  unfolding put_all lookup
  lookup-put_all j m [] h = refl
  lookup-put_all j m ((k, v) ∷ vs) h =
      ground (arith, eq_iff k j, lookup-put_all j (put k v m) vs h.1, lookup-put k j v m)

  pub put_append :
      (k : String) (v : V) (m : Map V) → lookup k m ≡ none → put k v m ≡ m ++ (k, v) ∷ []
  unfolding lookup put
  put_append k v [] h = refl
  put_append k v ((j, w) ∷ m) h = ground (arith, put_append k v m)

  pub lookup-append_self :
      (k : String) (v : V) (xs ys : Map V)
      → lookup k (xs ++ (k, v) ∷ ys)
        ≡ (elim (lookup k xs) as (λ _. Option V) [ none ↦ some v | some w ↦ some w ])
  unfolding lookup
  lookup-append_self k v [] ys = rw eq_refl
  lookup-append_self k v ((j, w) ∷ xs) ys = ground (arith, lookup-append_self k v xs ys)

  pub lookup-middle :
      (k : String) (v : V) (xs ys : Map V) → IsMap (xs ++ (k, v) ∷ ys) → lookup k xs ≡ none
  unfolding lookup
  lookup-middle k v [] ys h = refl
  lookup-middle k v ((j, w) ∷ xs) ys h =
      ground (arith, eq_iff j k, lookup-middle k v xs ys h.1, lookup-append_self k v xs ys)

  -- Entries with new, distinct keys are added at the end.
  pub put_all-append : (m vs : Map V) → IsMap (m ++ vs) → put_all m vs ≡ m ++ vs
  unfolding put_all
  put_all-append m [] h = rw append-nil
  put_all-append m ((k, v) ∷ vs) h = rw (put_append k v m (lookup-middle k v m vs h)) (
      rw (append_assoc m ((k, v) ∷ []) vs) at
        (put_all-append (m ++ (k, v) ∷ []) vs (rw (append_assoc m ((k, v) ∷ []) vs) h)))
