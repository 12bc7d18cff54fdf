-- ===== src/Base/Assoc/Ends.antt =====
-- Entries at the end of an association list: added, written over, and removed again.
use mathlib.Core.List.{List, [], ◌∷◌, ◌++◌}
use mathlib.Core.Option.{none}
use mathlib.Core.Path.{◌≡◌, refl, ap}
use native.Mathlib.Omega.{arith}
use Prim.Native.String.{String}
use text.Mathlib.TextPositions.{eq_refl}
use terraform_provider_nixos.Base.Assoc.{Map, lookup, put, remove, IsMap, put_append, put-IsMap}

module _ {ℓ} {V : Type ℓ} where
  abbrev pub keys : Map V → List String
  keys [] = []
  keys ((k, v) ∷ m) = k ∷ keys m

  pub keys-append : (m : Map V) (k : String) (v : V) → keys (m ++ (k, v) ∷ []) ≡ keys m ++ k ∷ []
  keys-append [] k v = refl
  keys-append ((j, w) ∷ m) k v = ap (◌∷◌ j) (keys-append m k v)

  pub put-end :
      (k : String) (u v : V) (m : Map V)
      → lookup k m ≡ none
      → put k v (m ++ (k, u) ∷ []) ≡ m ++ (k, v) ∷ []
  unfolding lookup put
  put-end k u v [] h = rw eq_refl
  put-end k u v ((j, w) ∷ m) h = ground (arith, put-end k u v m)

  pub remove-middle :
      (k : String) (v : V) (m n : Map V) → lookup k m ≡ none → remove k (m ++ (k, v) ∷ n) ≡ m ++ n
  unfolding lookup remove
  remove-middle k v [] n h = rw eq_refl
  remove-middle k v ((j, w) ∷ m) n h = ground (arith, remove-middle k v m n)

  lookup-drop_middle :
      (j k : String) (v : V) (m n : Map V)
      → lookup j (m ++ (k, v) ∷ n) ≡ none
      → lookup j (m ++ n) ≡ none
  unfolding lookup
  lookup-drop_middle j k v [] n h = ground arith
  lookup-drop_middle j k v ((i, w) ∷ m) n h = ground (arith, lookup-drop_middle j k v m n)

  pub IsMap-drop_middle :
      (k : String) (v : V) (m n : Map V) → IsMap (m ++ (k, v) ∷ n) → IsMap (m ++ n)
  IsMap-drop_middle k v [] n h = h.1
  IsMap-drop_middle k v ((j, w) ∷ m) n h =
      (lookup-drop_middle j k v m n h.0, IsMap-drop_middle k v m n h.1)

  pub IsMap-append_end :
      (k : String) (v : V) (m : Map V) → lookup k m ≡ none → IsMap m → IsMap (m ++ (k, v) ∷ [])
  IsMap-append_end k v m new h = rw (put_append k v m new) at (put-IsMap k v m h)
