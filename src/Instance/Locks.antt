-- ===== src/Instance/Locks.antt =====
-- `Instance.Create` of provider/instance.go and the locked buffers of its secrets.
use terraform_provider_nixos.Base.{
  ◌≡◌, refl, sym, ap, ◌∙◌, ℕ, List, Error, some, Outcome, ok, err, panic, Option-cases, inl, inr,
}
use mathlib.Core.Path.{subst}
use terraform_provider_nixos.Base.Int.{pos_part}
use terraform_provider_nixos.System.{System, World, M, attempt, inspect, defer}
use terraform_provider_nixos.System.Locks.{
  SameLocks, SameLocks-refl, KeepsLocks, KeepsLocks-pure, KeepsLocks-bind, KeepsLocks-then,
  KeepsLocks-lift, KeepsLocks-inspect, KeepsLocks-attempt, lock_rules,
}
use terraform_provider_nixos.Files.Laws.{OnOk, OnOk-ends}
use terraform_provider_nixos.Settings.{ResourceBox, Fields}
use terraform_provider_nixos.Nix.Derivation.{Derivation}
use terraform_provider_nixos.Secrets.{Secrets, SecretData, load, close}
use terraform_provider_nixos.Secrets.Buffers.{
  IsNumbered, Restores, load-close, IsCached, load-IsCached, locked-destroy_all, left_of,
}
use terraform_provider_nixos.Provider.{Network, Provider, as_int}
use terraform_provider_nixos.Provider.Objects.Secrets.{provider_secrets}
use terraform_provider_nixos.Provider.Objects.Secrets.Fresh.{provider_secrets-new}
use terraform_provider_nixos.Provider.Actions.{build}
use terraform_provider_nixos.Provider.Actions.Locks.{build-KeepsLocks}
use terraform_provider_nixos.Provider.Actions.Deploy.Locks.{
  copy_secrets-KeepsLocks, push-KeepsLocks, switch-KeepsLocks,
}
use terraform_provider_nixos.Instance.Retry.{retries}
use terraform_provider_nixos.Instance.Retry.Locks.{retrying-KeepsLocks}
use terraform_provider_nixos.Instance.Fingerprint.{secrets_fingerprint_to_schema}
use terraform_provider_nixos.Instance.{
  Resource, Libraries, or_fail, with_id, set_computed, record_result, deploy, deploy_and_switch,
  create,
}

or_fail-KeepsLocks :
    {V A : Type 0} (r : Resource V) (k : A → M (Resource V × List Error))
    → ((a : A) → KeepsLocks (k a))
    → (o : Outcome A) → KeepsLocks (or_fail r k o)
unfolding or_fail
or_fail-KeepsLocks r k h (ok a) = h a
or_fail-KeepsLocks r k h (err e) = KeepsLocks-pure _
or_fail-KeepsLocks r k h (panic p) = record { keeps = SameLocks-refl }

inspect-KeepsLocks :
    {V A : Type 0} (m : M A) (r : Resource V) (k : A → M (Resource V × List Error))
    → KeepsLocks m
    → ((a : A) → KeepsLocks (k a))
    → KeepsLocks (inspect m (or_fail r k))
inspect-KeepsLocks m r k q h = KeepsLocks-inspect m _ q (or_fail-KeepsLocks r k h)

module _ {V : Type 0} (lib : Libraries V) where
  with_id-KeepsLocks : (r : Resource V) → KeepsLocks (with_id lib r)
  unfolding with_id
  with_id-KeepsLocks r = search lock_rules depth 10

  set_computed-KeepsLocks :
      (fp : Fields) (ds : List V) (r : Resource V) → KeepsLocks (set_computed lib fp ds r)
  unfolding set_computed
  set_computed-KeepsLocks fp ds r =
      inspect-KeepsLocks (attempt (lib.accepts_fingerprint fp)) r _ (KeepsLocks-attempt _) λ _.
        inspect-KeepsLocks (attempt (lib.accepts_derivations ds))
          (record r { fingerprint = some fp }) _ (KeepsLocks-attempt _) λ _. KeepsLocks-pure _

  record_result-KeepsLocks :
      (s : List SecretData) (ds : List Derivation) (r : Resource V)
      → KeepsLocks (record_result lib s ds r)
  unfolding record_result
  record_result-KeepsLocks s ds r =
      let fields = secrets_fingerprint_to_schema lib.crypto lib.random s in
      KeepsLocks-bind _ _ (with_id-KeepsLocks r) λ r'.
        inspect-KeepsLocks _ r' _ (KeepsLocks-lift fields) λ fp.
          inspect-KeepsLocks _ r' _ (KeepsLocks-attempt (lib.encode_derivations ds))
            λ vs. set_computed-KeepsLocks fp vs r'

module _ {V : Type 0} (net : Network) (sys : System) (lib : Libraries V) where
  open net use {IP, IPNet}

  deploy-KeepsLocks :
      (p : Provider IP IPNet) (b : ResourceBox) (s : Secrets) (ss : List SecretData)
      (ds : List Derivation)
      → s.data_cache ≡ some ss
      → KeepsLocks (deploy net sys lib p b s ds)
  unfolding deploy
  deploy-KeepsLocks p b s ss ds e =
      KeepsLocks-then _ _
        (KeepsLocks-bind _ _ (copy_secrets-KeepsLocks net sys lib.writer p b s ss e)
          λ r. KeepsLocks-lift r.1)
        (push-KeepsLocks net sys p b ds)

  deploy_and_switch-KeepsLocks :
      (p : Provider IP IPNet) (r : Resource V) (ds : List Derivation)
      (s : Secrets × List SecretData)
      → s.0.data_cache ≡ some s.1
      → KeepsLocks (deploy_and_switch net sys lib p r ds s)
  unfolding deploy_and_switch
  deploy_and_switch-KeepsLocks p r ds s e =
      KeepsLocks-bind _ _ (KeepsLocks-lift (as_int (p.box "retry"))) λ retry.
        KeepsLocks-bind _ _ (KeepsLocks-lift (as_int (p.box "retry_wait"))) λ wait.
          inspect-KeepsLocks _ r _
            (retrying-KeepsLocks (pos_part wait) _ (retries retry)
              (deploy-KeepsLocks p r.box s.0 s.1 ds e))
            λ _.
              inspect-KeepsLocks _ r _ (switch-KeepsLocks net sys p r.box ds)
                λ _. record_result-KeepsLocks lib s.1 ds r

-- Which buffers `Close` leaves depends on the locked buffers only.
close_cong :
    (s : Secrets) (v w : World) → v.locked ≡ w.locked → (close s v).1.locked ≡ (close s w).1.locked
unfolding close
close_cong s v w h = elim (Option-cases s.data_cache) [
  | inl e ↦ rw (e, close) h
  | inr (ss, e) ↦
      rw (e, close) (locked-destroy_all ss v ∙ ap (left_of ss) h ∙ sym (locked-destroy_all ss w))
]

IsNumbered-same : (v w : World) → SameLocks v w → IsNumbered v → IsNumbered w
IsNumbered-same v w q h = rw (q.locked_eq, q.next_eq) h

-- Where the operation returns, these buffers are locked.
abbrev Leaves : {A : Type 0} → List ℕ → Outcome A × World → Type 0
Leaves base r = OnOk (λ _ v. v.locked ≡ base) r

Leaves-or_fail :
    {V A : Type 0} (base : List ℕ) (r : Resource V) (k : A → M (Resource V × List Error))
    → (o : Outcome A) (w : World) → w.locked ≡ base
    → ((a : A) → o ≡ ok a → Leaves base (k a w))
    → Leaves base (or_fail r k o w)
unfolding or_fail
Leaves-or_fail base r k (ok a) w h f = f a refl
Leaves-or_fail base r k (err e) w h f = h
Leaves-or_fail base r k (panic p) w h f = tt

module _ {V : Type 0} (net : Network) (sys : System) (lib : Libraries V) where
  open net use {IP, IPNet}

  after_load :
      (base : List ℕ) (p : Provider IP IPNet) (r : Resource V) (ds : List Derivation)
      (o : Outcome (Secrets × List SecretData)) (w : World)
      → Restores base (o, w)
      → OnOk IsCached (o, w)
      → Leaves base (
          or_fail r
            (λ s. defer (λ v. (close s.0 v).1) (deploy_and_switch net sys lib p r ds s))
            o
            w)
  unfolding or_fail
  after_load base p r ds (ok s) w h c =
      let k = (deploy_and_switch-KeepsLocks net sys lib p r ds s c).keeps w in
      OnOk-ends (λ v. v.locked ≡ base) _ (close_cong s.0 _ w k.locked_eq ∙ h)
  after_load base p r ds (err e) w h c = h
  after_load base p r ds (panic q) w h c = tt

  -- In a state whose locked buffers have old numbers, a creation that returns, with or without a
  -- diagnostic, leaves exactly the locked buffers that were there before it: the buffers of its
  -- secrets are destroyed, however many attempts were made and whatever failed.
  pub create-Leaves :
      (p : Provider IP IPNet) (r : Resource V) (w : World)
      → IsNumbered w
      → OnOk (λ _ v. v.locked ≡ w.locked) (create net sys lib p r w)
  unfolding create
  create-Leaves p r w h =
      let b = (build-KeepsLocks sys lib.decode p r.box).keeps w in
      let v = (build sys lib.decode p r.box w).1 in
      Leaves-or_fail w.locked r _ (build sys lib.decode p r.box w).0 v b.locked_eq λ ds _.
        Leaves-or_fail w.locked r _ (provider_secrets sys p (some r.box)) v b.locked_eq λ s e.
          after_load w.locked p r ds (load sys s v).0 (load sys s v).1
            (subst (λ l. Restores l (load sys s v)) b.locked_eq
              (load-close sys s v (provider_secrets-new sys p (some r.box) s e)
                (IsNumbered-same w v b h)))
            (load-IsCached sys s v)
