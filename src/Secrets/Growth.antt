-- ===== src/Secrets/Growth.antt =====
-- How many buffers `Secrets.Data` of provider/secrets.go locks.
use terraform_provider_nixos.Base.{
  ℕ, ◌+◌, ◌≡◌, ap, ◌∙◌, List, [], ◌∷◌, ◌++◌, none, Outcome, ok, err, panic, length, arith,
}
use terraform_provider_nixos.Base.Hex.{Bytes}
use terraform_provider_nixos.System.{System, World, M, pure, continue, ◌>>=◌}
use terraform_provider_nixos.System.Locks.{KeepsLocks}
use terraform_provider_nixos.Files.Laws.{OnOk, OnOk-bind, OnOk-weaken, OnOk-ends}
use terraform_provider_nixos.Secrets.{
  SecretDescription, SecretData, SecretsProvider, Secrets, get, lock, new_locked_buffer, fetch,
  fetch_failed, load, keep_data,
}
use terraform_provider_nixos.Secrets.Buffers.{get-IsQuiet}

-- Where the action returns, so many buffers are locked more than in this state.
abbrev pub Grows : {A : Type 0} → ℕ → World → Outcome A × World → Type 0
Grows n w r = OnOk (λ _ v. length v.locked ≡ length w.locked + n) r

-- An action that keeps the buffers may follow.
pub Grows-bind :
    {A B : Type 0} (n : ℕ) (w : World) (m : M A) (f : A → M B)
    → Grows n w (m w)
    → ((a : A) → KeepsLocks (f a))
    → Grows n w ((m >>= f) w)
Grows-bind n w m f h k =
    OnOk-bind (λ _ v. length v.locked ≡ length w.locked + n) _ m f w h
      λ a v e.
        OnOk-ends (λ u. length u.locked ≡ length w.locked + n) (f a v)
          (ap length ((k a).keeps v).locked_eq ∙ e)

-- how many of the secrets have any bytes
abbrev pub filled : List SecretData → ℕ
filled [] = 0
filled (s ∷ ss) = elim s.bytes [ [] ↦ filled ss | b ∷ bs ↦ 1 + filled ss ]

-- the same of what `Data` returns
abbrev pub filled_of : Outcome (Secrets × List SecretData) → ℕ
filled_of (ok r) = filled r.1
filled_of (err e) = 0
filled_of (panic p) = 0

filled-cons :
    (bytes : Bytes) (ss : List SecretData) (n : ℕ) (buf : Bytes) (d : SecretDescription)
    (l : List ℕ)
    → length (lock buf n l) + filled ss
      ≡ length l + filled (ss ++ record { buffer = n; bytes = buf; description = d } ∷ [])
    → length (lock buf n l) + elim bytes [ [] ↦ filled ss | b ∷ bs ↦ 1 + filled ss ]
      ≡ length l + elim bytes [
        | [] ↦ filled (ss ++ record { buffer = n; bytes = buf; description = d } ∷ [])
        | b ∷ bs ↦ 1 + filled (ss ++ record { buffer = n; bytes = buf; description = d } ∷ [])
      ]
filled-cons [] ss n buf d l h = h
filled-cons (b ∷ bs) ss n buf d l h = omega (arith, h)

filled-append :
    (ss : List SecretData) (n : ℕ) (buf : Bytes) (d : SecretDescription) (l : List ℕ)
    → length (lock buf n l) + filled ss
      ≡ length l + filled (ss ++ record { buffer = n; bytes = buf; description = d } ∷ [])
unfolding lock
filled-append [] n [] d l = omega arith
filled-append [] n (b ∷ bs) d l = omega arith
filled-append (s ∷ ss) n buf d l = filled-cons s.bytes ss n buf d l (filled-append ss n buf d l)

-- Beyond the buffers of this state, those of the new secrets that have bytes are locked.
abbrev Fills : List SecretData → World → Outcome (List SecretData) × World → Type 0
Fills ss w r = OnOk (λ ts v. length v.locked + filled ss ≡ length w.locked + filled ts) r

Fills-later :
    (ss ss' : List SecretData) (v w : World) (r : Outcome (List SecretData) × World)
    → length v.locked + filled ss ≡ length w.locked + filled ss'
    → Fills ss' v r
    → Fills ss w r
Fills-later ss ss' v w r h g = OnOk-weaken _ _ (λ ts u e. omega (arith, h, e)) r g

module _ (sys : System) (p : SecretsProvider) where
  after_get :
      (d : SecretDescription) (ds : List SecretDescription) (ss : List SecretData)
      (o : Outcome Bytes) (w : World)
      → ((ts : List SecretData) (v : World) → Fills ts v (fetch sys p ds ts v))
      → Fills ss w (
          continue
            (λ buf. new_locked_buffer buf >>= λ n.
              fetch sys p ds (ss ++ record { buffer = n; bytes = buf; description = d } ∷ []))
            (fetch_failed p d ss o w).0
            (fetch_failed p d ss o w).1)
  unfolding fetch_failed new_locked_buffer
  after_get d ds ss (ok buf) w ih =
      Fills-later ss (ss ++ record { buffer = w.next_buffer; bytes = buf; description = d } ∷ [])
        (new_locked_buffer buf w).1 w _ (filled-append ss w.next_buffer buf d w.locked) (ih _ _)
  after_get d ds ss (err e) w ih = tt
  after_get d ds ss (panic q) w ih = tt

  fetch-Fills :
      (ds : List SecretDescription) (ss : List SecretData) (w : World)
      → Fills ss w (fetch sys p ds ss w)
  unfolding fetch
  fetch-Fills [] ss w = omega arith
  fetch-Fills (d ∷ ds) ss w =
      let q = (get-IsQuiet sys p d.source).same w in
      Fills-later ss ss (get sys p d.source w).1 w _ (ap (λ l. length l + filled ss) q.locked_eq)
        (after_get d ds ss (get sys p d.source w).0 (get sys p d.source w).1 (fetch-Fills ds))

Grows-keep :
    (s : Secrets) (o : Outcome (List SecretData)) (v w : World)
    → Fills [] w (o, v)
    → let r = continue (λ ss. pure (keep_data s ss)) o v in Grows (filled_of r.0) w r
unfolding keep_data
Grows-keep s (ok ss) v w h = omega (arith, h)
Grows-keep s (err e) v w h = tt
Grows-keep s (panic p) v w h = tt

-- Where the secrets are fetched, as many buffers are locked as secrets have any bytes.
pub load-Grows :
    (sys : System) (s : Secrets) (w : World)
    → s.data_cache ≡ none
    → Grows (filled_of (load sys s w).0) w (load sys s w)
unfolding load
load-Grows sys s w e =
    rw (e, load)
      (Grows-keep s (fetch sys s.provider s.secrets [] w).0 (fetch sys s.provider s.secrets [] w).1
        w (fetch-Fills sys s.provider s.secrets [] w))
