-- ===== src/Instance/Laws.antt =====
-- What `Instance.Create` leaves in the state of terraform.
use terraform_provider_nixos.Base.{
  String, ◌≢◌, ◌=ₛ◌, Bool-cases, inl, inr, eq_iff, arith, ◌≡◌, refl, List, [], ◌∷◌, some, Error,
  Outcome, ok, err, panic,
}
use terraform_provider_nixos.System.{
  System, World, Attempt, done, refused, M, pure, lift, attempt, inspect, ◌>>=◌,
}
use terraform_provider_nixos.Files.Laws.{OnOk, OnOk-then, OnOk-bind}
use terraform_provider_nixos.Settings.{Fields}
use terraform_provider_nixos.Nix.Derivation.{Derivation}
use terraform_provider_nixos.Secrets.{Secrets, SecretData, load}
use terraform_provider_nixos.Base.Int.{pos_part}
use terraform_provider_nixos.Provider.{Network, Provider, as_int}
use terraform_provider_nixos.Provider.Objects.Secrets.{provider_secrets}
use terraform_provider_nixos.Provider.Actions.{build}
use terraform_provider_nixos.Provider.Actions.Deploy.{switch}
use terraform_provider_nixos.Instance.Retry.{retrying, retries}
use terraform_provider_nixos.Instance.Fingerprint.{secrets_fingerprint_to_schema}
use terraform_provider_nixos.Instance.{
  Resource, Libraries, or_fail, uuid_of, generate_id, with_id, set_computed, record_result, deploy,
  deploy_and_switch, create,
}

-- The computed values stand for these secrets and these derivations.
pub record IsRecorded {V : Type 0} (lib : Libraries V) (secrets : List SecretData)
    (drvs : List Derivation) (r : Resource V) : Type 0 where
  pub fields : Fields
  pub values : List V
  pub made : secrets_fingerprint_to_schema lib.crypto lib.random secrets ≡ ok fields
  pub encoded : lib.encode_derivations drvs ≡ done values
  pub fingerprint_eq : r.fingerprint ≡ some fields
  pub derivations_eq : r.derivations ≡ some values

-- Without a diagnostic, the resource fits.
abbrev pub IsReported :
    {V : Type 0} → (Resource V → Type 0) → Resource V × List Error → World → Type 0
IsReported P (r, []) w = P r
IsReported P (r, e ∷ es) w = Unit

IsReported-or_fail :
    {V A : Type 0} (P : Resource V → Type 0) (r : Resource V) (k : A → M (Resource V × List Error))
    → (o : Outcome A) (w : World) → ((a : A) → o ≡ ok a → OnOk (IsReported P) (k a w))
    → OnOk (IsReported P) (or_fail r k o w)
unfolding or_fail
IsReported-or_fail P r k (ok a) w h = h a refl
IsReported-or_fail P r k (err e) w h = tt
IsReported-or_fail P r k (panic p) w h = tt

IsReported-weaken :
    {V : Type 0} (P Q : Resource V → Type 0)
    → ((r : Resource V) → P r → Q r)
    → (o : Outcome (Resource V × List Error)) (v w : World) → OnOk (IsReported P) (o, v)
    → OnOk (IsReported Q) (o, w)
IsReported-weaken P Q f (ok (r, [])) v w h = f r h
IsReported-weaken P Q f (ok (r, e ∷ es)) v w h = tt
IsReported-weaken P Q f (err e) v w h = tt
IsReported-weaken P Q f (panic p) v w h = tt

attempt-done :
    {A : Type 0} (o : Attempt A) (w : World) (a : A) → (attempt o w).0 ≡ ok a → o ≡ done a
attempt-done (done b) w a h = cc
attempt-done (refused e) w a h = cc

-- An action reports from every state.
record Reports {V : Type 0} (P : Resource V → Type 0) (m : M (Resource V × List Error))
    : Type 0 where
  at : (w : World) → OnOk (IsReported P) (m w)

module _ {V : Type 0} (P : Resource V → Type 0) where
  Reports-then :
      {A : Type 0} (m : M A) (f : A → M (Resource V × List Error))
      → ((a : A) → Reports P (f a))
      → Reports P (m >>= f)
  Reports-then m f h = record { at = λ w. OnOk-then (IsReported P) m f w (λ a v. (h a).at v) }

  Reports-bind :
      {A : Type 0} (R : A → World → Type 0) (m : M A) (f : A → M (Resource V × List Error))
      → ((w : World) → OnOk R (m w))
      → ((a : A) (w : World) → R a w → OnOk (IsReported P) (f a w))
      → Reports P (m >>= f)
  Reports-bind R m f h k = record { at = λ w. OnOk-bind R (IsReported P) m f w (h w) k }

  Reports-inspect :
      {A : Type 0} (r : Resource V) (m : M A) (k : A → M (Resource V × List Error))
      → ((a : A) → Reports P (k a))
      → Reports P (inspect m (or_fail r k))
  Reports-inspect r m k h = record {
    at = λ w. IsReported-or_fail P r k (m w).0 (m w).1 (λ a e. (h a).at (m w).1);
  }

  Reports-lift :
      {A : Type 0} (r : Resource V) (o : Outcome A) (k : A → M (Resource V × List Error))
      → ((a : A) → o ≡ ok a → Reports P (k a))
      → Reports P (inspect (lift o) (or_fail r k))
  Reports-lift r o k h = record { at = λ w. IsReported-or_fail P r k o w (λ a e. (h a e).at w) }

  Reports-attempt :
      {A : Type 0} (r : Resource V) (o : Attempt A) (k : A → M (Resource V × List Error))
      → ((a : A) → o ≡ done a → Reports P (k a))
      → Reports P (inspect (attempt o) (or_fail r k))
  Reports-attempt r o k h = record {
    at = λ w.
        IsReported-or_fail P r k (attempt o w).0 (attempt o w).1
          (λ a e. (h a (attempt-done o w a e)).at (attempt o w).1);
  }

-- The resource has an id.
abbrev pub IsNamed : {V : Type 0} → Resource V → Type 0
IsNamed r = r.id ≢ ""

-- A generated id is not empty.
abbrev pub NamesAll : {V : Type 0} → Libraries V → Type 0
NamesAll lib = (s : String) → lib.generate_uuid ≡ done s → s ≢ ""

uuid_of-IsNamed :
    {V : Type 0} (lib : Libraries V) (r : Resource V) (o : Attempt String) (w : World)
    → ((s : String) → o ≡ done s → s ≢ "")
    → OnOk (λ r' _. IsNamed r') (((lift (uuid_of lib o)) >>= λ i. pure (record r { id = i })) w)
unfolding uuid_of
uuid_of-IsNamed lib r (done s) w h = h s refl
uuid_of-IsNamed lib r (refused e) w h = tt

with_id-IsNamed :
    {V : Type 0} (lib : Libraries V) (r : Resource V) (w : World)
    → NamesAll lib
    → OnOk (λ r' _. IsNamed r') (with_id lib r w)
unfolding with_id generate_id
with_id-IsNamed lib r w h = elim (Bool-cases (r.id =ₛ "")) [
  | inl e ↦ rw e (uuid_of-IsNamed lib r lib.generate_uuid w h)
  | inr e ↦ rw e (λ q. ground (arith, eq_iff r.id ""))
]

module _ {V : Type 0} (lib : Libraries V) (s : List SecretData) (drvs : List Derivation) where
  abbrev IsComplete : Resource V → Type 0
  IsComplete r = IsRecorded lib s drvs r × IsNamed r

  set_computed-Reports :
      (fp : Fields) (ds : List V) (r : Resource V)
      → IsNamed r
      → secrets_fingerprint_to_schema lib.crypto lib.random s ≡ ok fp
      → lib.encode_derivations drvs ≡ done ds
      → Reports IsComplete (set_computed lib fp ds r)
  unfolding set_computed
  set_computed-Reports fp ds r named made encoded =
      let P = IsComplete in
      Reports-attempt P r (lib.accepts_fingerprint fp) _ λ _ _.
        Reports-attempt P (record r { fingerprint = some fp }) (lib.accepts_derivations ds) _
          λ _ _. record {
            at = λ w. (
              record {
                fields = fp;
                values = ds;
                made = made;
                encoded = encoded;
                fingerprint_eq = refl;
                derivations_eq = refl;
              },
              named,
            );
          }

  recorded-Reports :
      (r : Resource V)
      → IsNamed r
      → Reports IsComplete (
          inspect (lift (secrets_fingerprint_to_schema lib.crypto lib.random s)) (
            or_fail r λ fp.
              inspect
                (attempt (lib.encode_derivations drvs))
                (or_fail r λ ds. set_computed lib fp ds r)))
  recorded-Reports r named =
      Reports-lift IsComplete r (secrets_fingerprint_to_schema lib.crypto lib.random s) _ λ fp made.
        Reports-attempt IsComplete r (lib.encode_derivations drvs) _
          λ ds encoded. set_computed-Reports fp ds r named made encoded

  record_result-Reports :
      (r : Resource V) → NamesAll lib → Reports IsComplete (record_result lib s drvs r)
  unfolding record_result
  record_result-Reports r h =
      Reports-bind IsComplete (λ r' _. IsNamed r') (with_id lib r) _
        (λ w. with_id-IsNamed lib r w h) λ r' w named. (recorded-Reports r' named).at w

module _ {V : Type 0} (net : Network) (sys : System) (lib : Libraries V) where
  open net use {IP, IPNet}

  -- what `Build` and then `Data` returned, from this state on, stands in the resource
  pub record IsCreated (p : Provider IP IPNet) (r : Resource V) (w : World) (created : Resource V)
      : Type 0 where
    pub drvs : List Derivation
    pub secrets : Secrets
    pub fetched : Secrets × List SecretData
    pub built : (build sys lib.decode p r.box w).0 ≡ ok drvs
    pub described : provider_secrets sys p (some r.box) ≡ ok secrets
    pub loaded : (load sys secrets (build sys lib.decode p r.box w).1).0 ≡ ok fetched
    pub recorded : IsRecorded lib fetched.1 drvs created
    pub named : IsNamed created

module _ {V : Type 0} (net : Network) (sys : System) (lib : Libraries V)
    (names : NamesAll lib) where
  open net use {IP, IPNet}

  deploy_and_switch-Reports :
      (p : Provider IP IPNet) (r : Resource V) (drvs : List Derivation)
      (s : Secrets × List SecretData)
      → Reports (IsComplete lib s.1 drvs) (deploy_and_switch net sys lib p r drvs s)
  unfolding deploy_and_switch
  deploy_and_switch-Reports p r drvs s =
      let P = IsComplete lib s.1 drvs in
      Reports-then P (lift (as_int (p.box "retry"))) _ λ retry.
        Reports-then P (lift (as_int (p.box "retry_wait"))) _ λ wait.
          Reports-inspect P r
            (retrying (pos_part wait) (deploy net sys lib p r.box s.0 drvs) (retries retry)) _
            λ _.
              Reports-inspect P r (switch net sys p r.box drvs) _
                λ _. record_result-Reports lib s.1 drvs r names

  -- If a generated id is never empty and `Create` returns without a diagnostic, then the resource has
  -- an id, a fingerprint made from the secrets that were fetched, and the encoding of the derivations
  -- that were built.
  pub create-IsReported :
      (p : Provider IP IPNet) (r : Resource V) (w : World)
      → OnOk (IsReported (IsCreated net sys lib p r w)) (create net sys lib p r w)
  unfolding create
  create-IsReported p r w =
      let P = IsCreated net sys lib p r w in
      let v = (build sys lib.decode p r.box w).1 in
      IsReported-or_fail P r _ (build sys lib.decode p r.box w).0 v λ drvs built.
        IsReported-or_fail P r _ (provider_secrets sys p (some r.box)) v λ secrets described.
          IsReported-or_fail P r _ (load sys secrets v).0 (load sys secrets v).1 λ s loaded.
            IsReported-weaken (IsComplete lib s.1 drvs) P
              (λ created complete. record {
                drvs = drvs;
                secrets = secrets;
                fetched = s;
                built = built;
                described = described;
                loaded = loaded;
                recorded = complete.0;
                named = complete.1;
              })
              (deploy_and_switch net sys lib p r drvs s (load sys secrets v).1).0
              (deploy_and_switch net sys lib p r drvs s (load sys secrets v).1).1 _
              ((deploy_and_switch-Reports p r drvs s).at (load sys secrets v).1)
