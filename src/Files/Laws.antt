-- ===== src/Files/Laws.antt =====
-- Temporary files that are created, written and closed again.
use terraform_provider_nixos.Base.{
  String, ◌≡◌, refl, ap, ◌∙◌, inl, inr, Outcome, none, [], ◌∷◌, ◌++◌, arith,
}
use terraform_provider_nixos.Base.Assoc.{
  Map, lookup, put, remove, IsMap, put_append, lookup-middle, lookup-append_self,
}
use text.Mathlib.TextLemmas.{nil-append}
use terraform_provider_nixos.Base.Assoc.Ends.{put-end, remove-middle, IsMap-drop_middle}
use terraform_provider_nixos.System.{System, World, done, M, lift, continue, ◌>>=◌}
use terraform_provider_nixos.System.Run.{Attempt-cases}
use terraform_provider_nixos.Files.{close_temp, create_temp, write, content}

-- What `os.CreateTemp` promises: the name of a file that did not exist.
pub record IsFresh (sys : System) : Type 0 where
  pub fresh :
      (w : World) (pattern n : String)
      → sys.create_temp w pattern ≡ done n
      → lookup n w.files ≡ none

-- No removal of a file fails.
pub record CanRemove (sys : System) : Type 0 where
  pub removes : (w : World) (n : String) → sys.remove_file w n ≡ done tt

-- A predicate of a value that is returned and of the state then; nothing of errors and panics.
abbrev pub OnOk : {A : Type 0} → (A → World → Type 0) → Outcome A × World → Type 0
OnOk P (Outcome.ok a, w) = P a w
OnOk P (Outcome.err e, w) = Unit
OnOk P (Outcome.panic p, w) = Unit

OnOk-continue :
    {A B : Type 0} (P : A → World → Type 0) (Q : B → World → Type 0) (f : A → M B)
    → ((a : A) (w : World) → P a w → OnOk Q (f a w))
    → (o : Outcome A) (w : World) → OnOk P (o, w)
    → OnOk Q (continue f o w)
OnOk-continue P Q f k (Outcome.ok a) w h = k a w h
OnOk-continue P Q f k (Outcome.err e) w h = tt
OnOk-continue P Q f k (Outcome.panic p) w h = tt

pub OnOk-bind :
    {A B : Type 0} (P : A → World → Type 0) (Q : B → World → Type 0) (m : M A) (f : A → M B)
    (w : World)
    → OnOk P (m w)
    → ((a : A) (w' : World) → P a w' → OnOk Q (f a w'))
    → OnOk Q ((m >>= f) w)
OnOk-bind P Q m f w h k = OnOk-continue P Q f k (m w).0 (m w).1 h

pub OnOk-any : {A : Type 0} (r : Outcome A × World) → OnOk (λ _ _. Unit) r
OnOk-any (Outcome.ok a, w) = tt
OnOk-any (Outcome.err e, w) = tt
OnOk-any (Outcome.panic p, w) = tt

-- a property of the state, whatever the outcome
pub OnOk-ends :
    {A : Type 0} (P : World → Type 0) (r : Outcome A × World) → P r.1 → OnOk (λ _ v. P v) r
OnOk-ends P (Outcome.ok a, w) h = h
OnOk-ends P (Outcome.err e, w) h = tt
OnOk-ends P (Outcome.panic p, w) h = tt

-- two predicates at once
pub OnOk-both :
    {A : Type 0} (P Q : A → World → Type 0) (r : Outcome A × World)
    → OnOk P r
    → OnOk Q r
    → OnOk (λ a w. P a w × Q a w) r
OnOk-both P Q (Outcome.ok a, w) h k = (h, k)
OnOk-both P Q (Outcome.err e, w) h k = tt
OnOk-both P Q (Outcome.panic p, w) h k = tt

-- a value that is there already
pub OnOk-lift :
    {A B : Type 0} (Q : B → World → Type 0) (o : Outcome A) (f : A → M B) (w : World)
    → ((a : A) → o ≡ Outcome.ok a → OnOk Q (f a w))
    → OnOk Q ((lift o >>= f) w)
OnOk-lift Q (Outcome.ok a) f w k = k a refl
OnOk-lift Q (Outcome.err e) f w k = tt
OnOk-lift Q (Outcome.panic p) f w k = tt

-- nothing is known of the first action
pub OnOk-then :
    {A B : Type 0} (Q : B → World → Type 0) (m : M A) (f : A → M B) (w : World)
    → ((a : A) (w' : World) → OnOk Q (f a w'))
    → OnOk Q ((m >>= f) w)
OnOk-then Q m f w k = OnOk-bind (λ _ _. Unit) Q m f w (OnOk-any (m w)) (λ a v _. k a v)

pub OnOk-weaken :
    {A : Type 0} (P Q : A → World → Type 0)
    → ((a : A) (w : World) → P a w → Q a w)
    → (r : Outcome A × World) → OnOk P r
    → OnOk Q r
OnOk-weaken P Q k (Outcome.ok a, w) h = k a w h
OnOk-weaken P Q k (Outcome.err e, w) h = tt
OnOk-weaken P Q k (Outcome.panic p, w) h = tt

pub close_temp-files :
    (sys : System) (n : String) (w : World)
    → CanRemove sys
    → (close_temp sys n w).1.files ≡ remove n w.files
unfolding close_temp
close_temp-files sys n w can = rw (can.removes w n, close_temp) refl

-- Closing the files by their names leaves the others.
pub remove_own :
    (fs own : Map String) (k v : String)
    → IsMap (fs ++ (k, v) ∷ own)
    → (remove k (fs ++ (k, v) ∷ own) ≡ fs ++ own) × IsMap (fs ++ own)
remove_own fs own k v h =
    (remove-middle k v fs own (lookup-middle k v fs own h), IsMap-drop_middle k v fs own h)

module _ (sys : System) (fresh : IsFresh sys) where
  -- `CreateTemp` adds an empty file of a new name at the end.
  pub create_temp-files :
      (pattern : String) (w : World)
      → OnOk
          (λ n w'. (w'.files ≡ w.files ++ (n, "") ∷ []) × (lookup n w.files ≡ none))
          (create_temp sys pattern w)
  unfolding create_temp
  create_temp-files pattern w = elim (Attempt-cases (sys.create_temp w pattern)) [
    | inl (n, e) ↦
        rw (e, create_temp)
          (put_append n "" w.files (fresh.fresh w pattern n e), fresh.fresh w pattern n e)
    | inr (e, q) ↦ rw (q, create_temp) tt
  ]

  content-end :
      (n : String) (fs : Map String) (w : World)
      → w.files ≡ fs ++ (n, "") ∷ []
      → lookup n fs ≡ none
      → content n w ≡ ""
  content-end n fs w h new = ground (arith, ap (lookup n) h, lookup-append_self n "" fs [])

  -- The first write to the file that was created last gives it its content.
  pub write-files :
      (n s : String) (fs : Map String) (w : World)
      → w.files ≡ fs ++ (n, "") ∷ []
      → lookup n fs ≡ none
      → OnOk (λ _ w'. w'.files ≡ fs ++ (n, s) ∷ []) (write sys n s w)
  unfolding write
  write-files n s fs w h new = elim (Attempt-cases (sys.write w n)) [
    | inl (_, e) ↦
        rw (e, write, content-end n fs w h new, nil-append s)
          (ap (put n s) h ∙ put-end n "" s fs new)
    | inr (e, q) ↦ rw (q, write) tt
  ]
