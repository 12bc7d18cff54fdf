-- ===== src/Secrets/Buffers.antt =====
-- The locked buffers of the secrets of provider/secrets.go, under `Data` and `Close`.
use terraform_provider_nixos.Base.{
  ℕ, suc, ◌<◌, ◌==◌, ◌≡◌, refl, ap, ◌∙◌, String, not, List, [], ◌∷◌, ◌++◌, none, some, Outcome, ok,
  err, panic, keep, All, arith, inl, inr, Option-cases,
}
use mathlib.Core.Path.{subst}
use terraform_provider_nixos.Files.Laws.{OnOk}
use terraform_provider_nixos.Base.Hex.{Bytes}
use terraform_provider_nixos.System.{System, World, pure, continue, ◌>>=◌}
use terraform_provider_nixos.System.Same.{
  Same, IsQuiet, quiet_rules, IsQuiet-pure, IsQuiet-fail, IsQuiet-crash, IsQuiet-inspect,
}
use terraform_provider_nixos.Command.Quiet.{command_execute-IsQuiet}
use terraform_provider_nixos.Environment.{Environment}
use terraform_provider_nixos.Secrets.{
  SecretDescription, SecretData, SecretsProvider, filesystem, command, gopass, Secrets, destroy,
  destroy_all, lock, new_locked_buffer, get, get_file, get_command, read_failed, command_failed,
  fetch, fetch_failed, load, close, keep_data,
}

read_failed-IsQuiet : (s : String) (o : Outcome Bytes) → IsQuiet (read_failed s o)
unfolding read_failed
read_failed-IsQuiet s (ok b) = IsQuiet-pure b
read_failed-IsQuiet s (err e) = IsQuiet-fail _
read_failed-IsQuiet s (panic p) = IsQuiet-crash p

command_failed-IsQuiet :
    (s c : String) (a : List String) (o : Outcome Bytes) → IsQuiet (command_failed s c a o)
unfolding command_failed
command_failed-IsQuiet s c a (ok b) = IsQuiet-pure b
command_failed-IsQuiet s c a (err e) = IsQuiet-fail _
command_failed-IsQuiet s c a (panic p) = IsQuiet-crash p

get_file-IsQuiet : (sys : System) (s : String) → IsQuiet (get_file sys s)
unfolding get_file
get_file-IsQuiet sys s = search (quiet_rules, read_failed-IsQuiet) depth 12

get_command-IsQuiet :
    (sys : System) (c : String) (a : List String) (env : Environment) (s : String)
    → IsQuiet (get_command sys c a env s)
unfolding get_command
get_command-IsQuiet sys c a env s =
    IsQuiet-inspect _ _ (command_execute-IsQuiet sys c _ _) (command_failed-IsQuiet s c a)

-- A provider locks no buffer.
pub get-IsQuiet : (sys : System) (p : SecretsProvider) (s : String) → IsQuiet (get sys p s)
unfolding get
get-IsQuiet sys filesystem s = get_file-IsQuiet sys s
get-IsQuiet sys (command c a env) s = get_command-IsQuiet sys c a env s
get-IsQuiet sys (gopass c a env) s = get_command-IsQuiet sys c a env s

without : ℕ → List ℕ → List ℕ
without n = keep (λ m. not (m == n))

-- what is left of some buffers when those of the secrets are destroyed
pub left_of : List SecretData → List ℕ → List ℕ
unfolding without
left_of [] l = l
left_of (s ∷ ss) l = left_of ss (without s.buffer l)

pub locked-destroy_all :
    (ss : List SecretData) (w : World) → (destroy_all ss w).locked ≡ left_of ss w.locked
unfolding destroy_all destroy left_of
locked-destroy_all [] w = refl
locked-destroy_all (s ∷ ss) w = locked-destroy_all ss (destroy s.buffer w)

without-append :
    (ss : List SecretData) (s : SecretData) (l : List ℕ)
    → left_of (ss ++ s ∷ []) l ≡ without s.buffer (left_of ss l)
unfolding left_of
without-append [] s l = refl
without-append (t ∷ ss) s l = without-append ss s (without t.buffer l)

without_of_lt : (n : ℕ) (l : List ℕ) → All (λ m. m < n) l → without n l ≡ l
unfolding without
without_of_lt n [] h = refl
without_of_lt n (m ∷ l) h = ground (arith, without_of_lt n l h.1)

-- A new buffer is destroyed with the secret that holds it, in whatever order.
left_of_new :
    (ss : List SecretData) (n : ℕ) (l : List ℕ)
    → without n (left_of ss (n ∷ l)) ≡ without n (left_of ss l)
unfolding left_of without
left_of_new [] n l = ground arith
left_of_new (s ∷ ss) n l = ground (arith, left_of_new ss n (without s.buffer l))

-- the same, whether the buffer is locked or a null buffer
left_of-lock :
    (ss : List SecretData) (buf : Bytes) (n : ℕ) (l : List ℕ)
    → without n (left_of ss (lock buf n l)) ≡ without n (left_of ss l)
unfolding lock
left_of-lock ss [] n l = refl
left_of-lock ss (b ∷ bs) n l = left_of_new ss n l

All-lt-suc : (n : ℕ) (l : List ℕ) → All (λ m. m < n) l → All (λ m. m < suc n) l
All-lt-suc n [] h = tt
All-lt-suc n (m ∷ l) h = (omega arith, All-lt-suc n l h.1)

-- Without the buffers of these secrets, exactly those of `base` are locked, all with old numbers.
pub record Owned (base : List ℕ) (ss : List SecretData) (w : World) : Type 0 where
  pub left : left_of ss w.locked ≡ base
  pub old : All (λ m. m < w.next_buffer) base

-- How an action ends: with owned buffers, or with an error and the buffers of `base` alone.
abbrev pub Settled : List ℕ → Outcome (List SecretData) × World → Type 0
Settled base (ok ss, w) = Owned base ss w
Settled base (err e, w) = w.locked ≡ base
Settled base (panic p, w) = Unit

Owned-Same :
    {base : List ℕ} {ss : List SecretData} {v w : World}
    → Same v w
    → Owned base ss v
    → Owned base ss w
Owned-Same {base} {ss} q h = record {
  left = ap (left_of ss) q.locked_eq ∙ h.left;
  old = rw q.next_eq h.old;
}

-- the next buffer, and the secret that holds it
Owned-new :
    (base : List ℕ) (ss : List SecretData) (buf : Bytes) (d : SecretDescription) (w : World)
    → Owned base ss w
    → Owned base
        (ss ++ record { buffer = w.next_buffer; bytes = buf; description = d } ∷ [])
        (new_locked_buffer buf w).1
unfolding new_locked_buffer
Owned-new base ss buf d w h = record {
  left =
      without-append ss _ (lock buf w.next_buffer w.locked)
      ∙ left_of-lock ss buf w.next_buffer w.locked
      ∙ ap (without w.next_buffer) h.left
      ∙ without_of_lt w.next_buffer base h.old;
  old = All-lt-suc w.next_buffer base h.old;
}

module _ (sys : System) (p : SecretsProvider) (base : List ℕ) where
  -- what follows a call of the provider
  after_get :
      (d : SecretDescription) (rest : List SecretDescription) (ss : List SecretData)
      → (o : Outcome Bytes) (w : World) → Owned base ss w
      → ((t : SecretData) (v : World)
          → Owned base (ss ++ t ∷ []) v
          → Settled base (fetch sys p rest (ss ++ t ∷ []) v))
      → Settled base (
          continue
            (λ buf. new_locked_buffer buf >>= λ n.
              fetch sys p rest (ss ++ record { buffer = n; bytes = buf; description = d } ∷ []))
            (fetch_failed p d ss o w).0
            (fetch_failed p d ss o w).1)
  unfolding fetch_failed
  after_get d rest ss (ok buf) w h k =
      unfold new_locked_buffer in k _ _ (Owned-new base ss buf d w h)
  after_get d rest ss (err e) w h k = locked-destroy_all ss w ∙ h.left
  after_get d rest ss (panic q) w h k = tt

  fetch-Settled :
      (ds : List SecretDescription) (ss : List SecretData) (w : World)
      → Owned base ss w
      → Settled base (fetch sys p ds ss w)
  unfolding fetch
  fetch-Settled [] ss w h = h
  fetch-Settled (d ∷ ds) ss w h =
      after_get d ds ss (get sys p d.source w).0 (get sys p d.source w).1
        (Owned-Same ((get-IsQuiet sys p d.source).same w) h)
        (λ t v. fetch-Settled ds (ss ++ t ∷ []) v)

-- The locked buffers of a state have old numbers.
abbrev pub IsNumbered : World → Type 0
IsNumbered w = All (λ m. m < w.next_buffer) w.locked

-- How fetching ends: closing the secrets, or the error itself, leaves the buffers as they were.
abbrev pub Restores : List ℕ → Outcome (Secrets × List SecretData) × World → Type 0
Restores base (ok r, w) = (close r.0 w).1.locked ≡ base
Restores base (err e, w) = w.locked ≡ base
Restores base (panic p, w) = Unit

Restores-keep :
    (s : Secrets) (base : List ℕ) (o : Outcome (List SecretData)) (w : World)
    → Settled base (o, w)
    → Restores base (continue (λ ss. pure (keep_data s ss)) o w)
unfolding keep_data close
Restores-keep s base (ok ss) w h = locked-destroy_all ss w ∙ h.left
Restores-keep s base (err e) w h = h
Restores-keep s base (panic p) w h = tt

-- In a state whose locked buffers have old numbers, fetching secrets that are not cached and then
-- closing them leaves exactly the locked buffers that were there before; if fetching fails with an
-- error, it has destroyed its buffers itself. Nothing is said of panics.
pub load-close :
    (sys : System) (s : Secrets) (w : World)
    → s.data_cache ≡ none
    → IsNumbered w
    → Restores w.locked (load sys s w)
unfolding load
load-close sys s w e h =
    rw (e, load)
      (Restores-keep s w.locked _ _ (
        fetch-Settled sys s.provider w.locked s.secrets [] w
          (record { left = unfold left_of in refl; old = h })))

abbrev pub IsCached : Secrets × List SecretData → World → Type 0
IsCached r w = r.0.data_cache ≡ some r.1

IsCached-keep :
    (s : Secrets) (o : Outcome (List SecretData)) (w : World)
    → OnOk IsCached (continue (λ ss. pure (keep_data s ss)) o w)
unfolding keep_data
IsCached-keep s (ok ss) w = refl
IsCached-keep s (err e) w = tt
IsCached-keep s (panic p) w = tt

pub load-IsCached : (sys : System) (s : Secrets) (w : World) → OnOk IsCached (load sys s w)
unfolding load
load-IsCached sys s w = elim (Option-cases s.data_cache) [
  | inl e ↦ rw (e, load) (IsCached-keep s _ _)
  | inr (ss, e) ↦ rw (e, load) e
]

pub load_of_cached :
    (sys : System) (s : Secrets) (ss : List SecretData) (v : World)
    → s.data_cache ≡ some ss
    → load sys s v ≡ (ok (s, ss), v)
unfolding load
load_of_cached sys s ss v e = ground arith

-- After a call of `Data` that returned, a call in any state returns the same secrets and leaves
-- the state as it is, the log included: the provider is not asked again.
pub load_again :
    (sys : System) (s s' : Secrets) (ss : List SecretData) (w w' v : World)
    → load sys s w ≡ (ok (s', ss), w')
    → load sys s' v ≡ (ok (s', ss), v)
load_again sys s s' ss w w' v h =
    let cached : s'.data_cache ≡ some ss = subst (OnOk IsCached) h (load-IsCached sys s w) in
    load_of_cached sys s' ss v cached
