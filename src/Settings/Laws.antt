-- ===== src/Settings/Laws.antt =====
-- What `merge` of provider/provider.go leaves under each key.
use terraform_provider_nixos.Base.{
  String, ◌≡◌, refl, sym, ap, ◌∙◌, Option, none, some, ok, >>=-eq-ok, arith, ◌=ₛ◌, eq_iff,
  if◌then◌else◌, Bool-cases, inl, inr,
}
use mathlib.Core.Path.{subst}
use terraform_provider_nixos.Settings.Values.{
  Value, Fields, IsFields, map, end, field, get_field, put_field,
}
use terraform_provider_nixos.Settings.Merge.{copy_fields, merge_loop, merge_value, merge}

pub get_field-put :
    (k j : String) (v : Value) (fs : Fields)
    → get_field j (put_field k v fs) ≡ (if k =ₛ j then some v else get_field j fs)
unfolding get_field put_field
get_field-put k j v end = refl
get_field-put k j v (field i w fs) =
    ground (arith, eq_iff k j, eq_iff i k, eq_iff i j, get_field-put k j v fs)

get_field-copy :
    (j : String) (r fs : Fields)
    → IsFields fs
    → get_field j (copy_fields r fs)
      ≡ elim (get_field j fs) [ none ↦ get_field j r | some v ↦ some v ]
unfolding copy_fields get_field
get_field-copy j r end h = refl
get_field-copy j r (field k v fs) h =
    ground (arith, eq_iff k j, get_field-copy j (put_field k v r) fs h.1, get_field-put k j v r)

option_same : (o : Option Value) → (elim o [ none ↦ none | some v ↦ some v ]) ≡ o
option_same none = refl
option_same (some v) = refl

-- What is under a key of `out`, if `r` was there and the value, if any, is merged into it.
abbrev IsWritten : Fields → Fields → String → Option Value → Type 0
IsWritten r out k none = get_field k out ≡ get_field k r
IsWritten r out k (some v) =
    (v' : Value) × (merge_value (get_field k r) v ≡ ok v') × (get_field k out ≡ some v')

IsWritten-base :
    (r s out : Fields) (k : String) (o : Option Value)
    → get_field k r ≡ get_field k s
    → IsWritten r out k o
    → IsWritten s out k o
IsWritten-base r s out k none e h = h ∙ e
IsWritten-base r s out k (some v) e h = (h.0, ap (λ c. merge_value c v) (sym e) ∙ h.1, h.2)

IsWritten-first :
    (r fs out : Fields) (j k : String) (v v' : Value)
    → j ≡ k
    → merge_value (get_field j r) v ≡ ok v'
    → get_field k fs ≡ none
    → IsWritten (put_field j v' r) out k none
    → IsWritten r out k (some v)
IsWritten-first r fs out j k v v' e h n q =
    (v', rw (sym e) h, q ∙ ground (arith, eq_iff j k, get_field-put j k v' r))

merge_loop-IsWritten :
    (r fs out : Fields) (k : String)
    → IsFields fs
    → merge_loop r fs ≡ ok out
    → IsWritten r out k (get_field k fs)
unfolding merge_loop get_field
merge_loop-IsWritten r end out k h e = ap (get_field k) (cc)
merge_loop-IsWritten r (field j v fs) out k h e =
    let s = >>=-eq-ok (merge_value (get_field j r) v) (λ v'. merge_loop (put_field j v' r) fs) e in
    let ih = merge_loop-IsWritten (put_field j s.0 r) fs out k h.1 s.2 in
    elim (Bool-cases (j =ₛ k)) [
      | inl t ↦
          let same : j ≡ k = (eq_iff j k).0 t in
          let gone : get_field k fs ≡ none = rw (sym same) h.0 in
          rw t (
            IsWritten-first r fs out j k v s.0 same s.1 gone
              (subst (IsWritten (put_field j s.0 r) out k) gone ih))
      | inr t ↦ rw t (
          IsWritten-base (put_field j s.0 r) r out k _ (ground (arith, get_field-put j k s.0 r)) ih)
    ]

-- What two values become: maps are merged, and otherwise the second one is taken, which is not a
-- map where the first one is something else.
abbrev pub IsMergeOf : Option Value → Value → Option Value → Type 0
IsMergeOf none v o = o ≡ some v
IsMergeOf (some (map cs)) (map fs) o = (m : Fields) × (merge cs fs ≡ ok m) × (o ≡ some (map m))
IsMergeOf (some c) (map fs) o = ⊥
IsMergeOf (some c) v o = o ≡ some v

-- What is under a key of the result, from what is there in the first block and in the second.
abbrev pub IsMerged : Option Value → Option Value → Option Value → Type 0
IsMerged first none o = o ≡ first
IsMerged first (some v) o = IsMergeOf first v o

merge_value-IsMergeOf :
    (first : Option Value) (v v' : Value) (o : Option Value)
    → merge_value first v ≡ ok v'
    → o ≡ some v'
    → IsMergeOf first v o
unfolding merge_value merge
merge_value-IsMergeOf none v v' o e h = cc
merge_value-IsMergeOf (some (map cs)) (map fs) v' o e h =
    let s = >>=-eq-ok (merge_loop (copy_fields end cs) fs) (λ m. ok (map m)) e in
    let q : some v' ≡ some (map s.0) = cc (s.2) in (s.0, s.1, h ∙ q)
merge_value-IsMergeOf (some c) (map fs) v' o e h = cc
merge_value-IsMergeOf (some c) v v' o e h = cc

IsMerged-written :
    (a out : Fields) (k : String) (second : Option Value)
    → IsWritten a out k second
    → IsMerged (get_field k a) second (get_field k out)
IsMerged-written a out k none h = h
IsMerged-written a out k (some v) h =
    merge_value-IsMergeOf (get_field k a) v h.0 (get_field k out) h.1 h.2

-- After a successful merge of two blocks without double keys, a key that the second does not have
-- is as in the first, and a key that it has holds the second value, but for a key with a map in
-- both: that holds the merge of the two maps. No key has a map in the second block and another value
-- in the first.
pub merge-IsMerged :
    (a b out : Fields) (k : String)
    → IsFields a
    → IsFields b
    → merge a b ≡ ok out
    → IsMerged (get_field k a) (get_field k b) (get_field k out)
unfolding merge get_field
merge-IsMerged a b out k ha hb e = IsMerged-written a out k (get_field k b) (
    IsWritten-base (copy_fields end a) a out k (get_field k b)
      (get_field-copy k end a ha ∙ option_same (get_field k a))
      (merge_loop-IsWritten (copy_fields end a) b out k hb e))
