-- ===== src/Ssh/ConfigMap/Laws.antt =====
-- The ordered dictionary of provider/ssh.go and the association list of its pairs.
use terraform_provider_nixos.Base.{
  ℕ, zero, suc, String, ◌≡◌, refl, ap, sym, ◌∙◌, Option, none, some, [], ◌∷◌, ◌++◌, ok, ◌>>=◌,
  length, arith, ◌=ₛ◌, eq_iff, if◌then◌else◌, inl, inr, Option-cases,
}
use terraform_provider_nixos.Base.Text.{to_lower, to_lower_idem}
use terraform_provider_nixos.Base.Assoc.{
  lookup, put, IsMap, lookup-put, put-IsMap, put_all, lookup-put_all, put_all-append,
}
use terraform_provider_nixos.Ssh.ConfigMap.{
  SshConfigMap, SshConfigPairs, new_ssh_config_map, set_value, value_at, set, get, pairs, set_all,
  extend, copy,
}

-- where a key first stands
unfoldable pub position : String → SshConfigPairs → Option ℕ
position k [] = none
position k ((j, v) ∷ s) =
    if j =ₛ k then some 0 else elim (position k s) [ none ↦ none | some i ↦ some (suc i) ]

abbrev pub IsLower : SshConfigPairs → Type 0
IsLower [] = Unit
IsLower ((k, v) ∷ s) = (to_lower k ≡ k) × IsLower s

-- The invariant: `index` gives the position of every key, keys are distinct and in lower case.
pub record IsValid (m : SshConfigMap) : Type 0 where
  pub indexed : (k : String) → lookup k m.index ≡ position k m.store
  pub distinct : IsMap m.store
  pub lower : IsLower m.store

set_value-position :
    (k v : String) (s : SshConfigPairs) (i : ℕ)
    → position k s ≡ some i
    → set_value s i v ≡ ok (put k v s)
unfolding position set_value put
set_value-position k v [] i h = ground arith
set_value-position k v ((j, w) ∷ s) zero h = ground (arith, eq_iff j k)
set_value-position k v ((j, w) ∷ s) (suc i) h =
    ground (arith, eq_iff j k, set_value-position k v s i)

value_at-position :
    (k : String) (s : SshConfigPairs) (i : ℕ)
    → position k s ≡ some i
    → (value_at s i >>= λ v. ok (some v)) ≡ ok (lookup k s)
unfolding position value_at lookup
value_at-position k [] i h = ground arith
value_at-position k ((j, w) ∷ s) zero h = ground arith
value_at-position k ((j, w) ∷ s) (suc i) h = ground (arith, value_at-position k s i)

lookup-position : (k : String) (s : SshConfigPairs) → position k s ≡ none → lookup k s ≡ none
unfolding position lookup
lookup-position k [] h = refl
lookup-position k ((j, w) ∷ s) h = ground (arith, lookup-position k s)

append-position :
    (k v : String) (s : SshConfigPairs) → position k s ≡ none → s ++ (k, v) ∷ [] ≡ put k v s
unfolding position put
append-position k v [] h = refl
append-position k v ((j, w) ∷ s) h = ground (arith, append-position k v s)

abbrev or_end : Option ℕ → Option ℕ → Option ℕ
or_end (some i) o = some i
or_end none o = o

position-put :
    (k v j : String) (s : SshConfigPairs)
    → position j (put k v s) ≡ or_end (position j s) (if k =ₛ j then some (length s) else none)
unfolding position put
position-put k v j [] = refl
position-put k v j ((i, w) ∷ s) =
    ground (arith, eq_iff i k, eq_iff i j, eq_iff k j, position-put k v j s)

IsLower-put : (k v : String) (s : SshConfigPairs) → to_lower k ≡ k → IsLower s → IsLower (put k v s)
unfolding put
IsLower-put k v [] e h = (e, tt)
IsLower-put k v ((i, w) ∷ s) e h = ground (arith, IsLower-put k v s e h.1)

module _ (k v : String) (m : SshConfigMap) (h : IsValid m) where
  set_new :
      lookup (to_lower k) m.index ≡ none
      → (m' : SshConfigMap) × (set k v m ≡ ok m')
        × (m'.store ≡ put (to_lower k) v m.store)
        × IsValid m'
  unfolding set
  set_new new =
      let missing = sym (h.indexed (to_lower k)) ∙ new in
      (
        record {
          index = put (to_lower k) (length m.store) m.index;
          store = put (to_lower k) v m.store;
        },
        ground (arith, append-position (to_lower k) v m.store),
        refl,
        record {
          indexed = λ j. ground (
            arith,
            h.indexed j,
            lookup-put (to_lower k) j (length m.store) m.index,
            position-put (to_lower k) v j m.store,
            eq_iff (to_lower k) j,
          );
          distinct = put-IsMap (to_lower k) v m.store h.distinct;
          lower = IsLower-put (to_lower k) v m.store (to_lower_idem k) h.lower;
        },
      )

  set_old :
      (i : ℕ)
      → lookup (to_lower k) m.index ≡ some i
      → (m' : SshConfigMap) × (set k v m ≡ ok m')
        × (m'.store ≡ put (to_lower k) v m.store)
        × IsValid m'
  unfolding set
  set_old i old =
      let present = sym (h.indexed (to_lower k)) ∙ old in
      (
        record { index = m.index; store = put (to_lower k) v m.store },
        ground (arith, set_value-position (to_lower k) v m.store i),
        refl,
        record {
          indexed = λ j.
              ground
                (arith, h.indexed j, position-put (to_lower k) v j m.store, eq_iff (to_lower k) j);
          distinct = put-IsMap (to_lower k) v m.store h.distinct;
          lower = IsLower-put (to_lower k) v m.store (to_lower_idem k) h.lower;
        },
      )

-- `Set` on a valid map does not panic; it writes the pair under the key in lower case, in its old
-- place or at the end, and keeps the map valid.
pub set-put :
    (k v : String) (m : SshConfigMap)
    → IsValid m
    → (m' : SshConfigMap) × (set k v m ≡ ok m')
      × (m'.store ≡ put (to_lower k) v m.store)
      × IsValid m'
set-put k v m h = elim (Option-cases (lookup (to_lower k) m.index)) [
  | inl new ↦ set_new k v m h new
  | inr (i, old) ↦ set_old k v m h i old
]

-- `Get` on a valid map does not panic, and finds what the pairs hold for the key in lower case.
pub get-lookup :
    (k : String) (m : SshConfigMap) → IsValid m → get k m ≡ ok (lookup (to_lower k) m.store)
unfolding get
get-lookup k m h = elim (Option-cases (lookup (to_lower k) m.index)) [
  | inl new ↦
      rw (new, get) (rw (lookup-position (to_lower k) m.store (sym (h.indexed (to_lower k)) ∙ new)))
  | inr (i, old) ↦
      rw (old, get) (value_at-position (to_lower k) m.store i (sym (h.indexed (to_lower k)) ∙ old))
]

pub new_ssh_config_map-IsValid : IsValid new_ssh_config_map
unfolding new_ssh_config_map lookup position
new_ssh_config_map-IsValid = record { indexed = λ k. refl; distinct = tt; lower = tt }

-- The pairs that `Extend` leaves: each pair written in turn.
unfoldable pub put_lower : SshConfigPairs → SshConfigPairs → SshConfigPairs
put_lower s [] = s
put_lower s ((k, v) ∷ ps) = put_lower (put (to_lower k) v s) ps

-- A loop of `Set` over pairs does not panic on a valid map and writes each pair in turn.
pub set_all-put_lower :
    (m : SshConfigMap) (ps : SshConfigPairs)
    → IsValid m
    → (m' : SshConfigMap) × (set_all m ps ≡ ok m') × (m'.store ≡ put_lower m.store ps) × IsValid m'
unfolding set_all put_lower
set_all-put_lower m [] h = (m, refl, refl, h)
set_all-put_lower m ((k, v) ∷ ps) h =
    let (m1, e1, s1, h1) = set-put k v m h in
    let (m2, e2, s2, h2) = set_all-put_lower m1 ps h1 in
    (m2, rw e1 e2, s2 ∙ ap (λ s. put_lower s ps) s1, h2)

pub put_all_lower : (s ps : SshConfigPairs) → IsLower ps → put_lower s ps ≡ put_all s ps
unfolding put_lower put_all
put_all_lower s [] h = refl
put_all_lower s ((k, v) ∷ ps) h = rw h.0 (put_all_lower (put k v s) ps h.1)

-- `Extend` of a valid map with a valid map does not panic and gives a valid map, in which a key
-- has the value of the argument, and its old value where the argument has none.
pub lookup-extend :
    (j : String) (m em : SshConfigMap)
    → IsValid m
    → IsValid em
    → (m' : SshConfigMap) × (extend m em ≡ ok m')
      × IsValid m'
      × (lookup j m'.store ≡ (elim (lookup j em.store) as (λ _. Option String) [
        | none ↦ lookup j m.store
        | some v ↦ some v
      ]))
unfolding extend pairs
lookup-extend j m em h k =
    let (m', e, s, h') = set_all-put_lower m em.store h in
    (
      m',
      e,
      h',
      rw (s, put_all_lower m.store em.store k.lower) (lookup-put_all j m.store em.store k.distinct),
    )

-- `Copy` of a valid map does not panic and gives a valid map with the same pairs in the same
-- order.
pub store-copy :
    (m : SshConfigMap)
    → IsValid m
    → (m' : SshConfigMap) × (copy m ≡ ok m') × IsValid m' × (m'.store ≡ m.store)
unfolding copy extend pairs new_ssh_config_map
store-copy m h =
    let (m', e, s, h') = set_all-put_lower new_ssh_config_map m.store new_ssh_config_map-IsValid in
    (m', e, h', s ∙ put_all_lower [] m.store h.lower ∙ put_all-append [] m.store h.distinct)
