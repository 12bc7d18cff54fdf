-- ===== src/Provider/Actions/Laws.antt =====
-- What reaches the server: the order of the copies, and of the installation and the activation.
use terraform_provider_nixos.Base.{
  Bool, any, arith, sym, append_assoc, ◌||◌, ◌∙◌, ap, String, ◌≡◌, refl, true, false, List, [], ◌∷◌,
  ◌++◌, Outcome, ok, err, panic, ◌=ₛ◌, if◌then◌else◌, Bool-cases, inl, inr,
}
use terraform_provider_nixos.Base.Assoc.{Map}
use terraform_provider_nixos.System.{
  Invocation, System, World, M, pure, continue, get_world, ◌>>=◌, ◌>>◌,
}
use terraform_provider_nixos.Command.{CommandLine, execute_command}
use terraform_provider_nixos.Command.Runs.{invocations, issued, execute_command-invocations}
use terraform_provider_nixos.Nix.{Nix}
use terraform_provider_nixos.Nix.Copy
use terraform_provider_nixos.Nix.Copy.{protocol_ssh, option_to, option_path}
use terraform_provider_nixos.Nix.Derivation.{Derivation}
use terraform_provider_nixos.Provider.Actions.Deploy.{
  push_outputs, push_all, is_action, install_and_activate,
}

-- the paths of the outputs
unfoldable pub map_paths : Map String → List String
map_paths [] = []
map_paths ((name, path) ∷ m) = path ∷ map_paths m

-- the store paths of the derivations, in the order of the loops of `Push`
unfoldable pub all_paths : List Derivation → List String
unfolding map_paths
all_paths [] = []
all_paths (d ∷ ds) = map_paths d.outputs ++ all_paths ds

after_copy :
    {A B : Type 0} (f : M A) (k : A → M B) (g : M B) (o : Outcome (Unit {0})) (v : World)
    → ((u : World) → (f >>= k) u ≡ g u)
    → (continue k (continue (λ (x : Unit {0}). f) o v).0 (continue (λ (x : Unit {0}). f) o v).1)
      ≡ continue (λ (x : Unit {0}). g) o v
after_copy f k g (ok a) v h = h v
after_copy f k g (err e) v h = refl
after_copy f k g (panic p) v h = refl

module _ (sys : System) (nix : Nix) (addr : String) where
  -- one copy of one store path
  abbrev pub copy_path : String → M Unit
  copy_path path =
      Copy.execute sys
        (Copy.copy sys.escape_path nix (option_to protocol_ssh addr ∷ option_path path ∷ []))

  -- copying paths one by one, until the context is done or a copy fails
  unfoldable pub copy_paths : List String → M Unit
  copy_paths [] = pure tt
  copy_paths (path ∷ paths) = do
    w ← get_world
    if sys.cancelled w then pure tt else (copy_path path >> copy_paths paths)

  push_outputs-copy_paths :
      (outputs : Map String) (ds : List Derivation) (w : World)
      → (ds_eq : (v : World) → push_all sys nix addr ds v ≡ copy_paths (all_paths ds) v)
      → (push_outputs sys nix addr outputs >>= λ go_on.
            if go_on then push_all sys nix addr ds else pure tt)
          w
        ≡ copy_paths (map_paths outputs ++ all_paths ds) w
  unfolding push_outputs copy_paths map_paths
  push_outputs-copy_paths [] ds w h = h w
  push_outputs-copy_paths ((name, path) ∷ outputs) ds w h = elim (Bool-cases (sys.cancelled w)) [
    | inl t ↦ rw t refl
    | inr t ↦ rw t (
        after_copy _ _ _ (copy_path path w).0 (copy_path path w).1
          (λ v. push_outputs-copy_paths outputs ds v h))
  ]

  -- The two loops over the derivations and their outputs are one loop over all the store paths: each
  -- is copied in this order, until the context is done, which ends the push without an error, or
  -- until a copy fails, which ends it with that error.
  pub push_all-copy_paths :
      (ds : List Derivation) (w : World) → push_all sys nix addr ds w ≡ copy_paths (all_paths ds) w
  unfolding push_all copy_paths all_paths
  push_all-copy_paths [] w = refl
  push_all-copy_paths (d ∷ ds) w = push_outputs-copy_paths d.outputs ds w (push_all-copy_paths ds)

continue-pure :
    (o : Outcome (Unit {0})) (w : World) → continue (λ (x : Unit {0}). pure tt) o w ≡ (o, w)
continue-pure (ok a) w = refl
continue-pure (err e) w = refl
continue-pure (panic p) w = refl

then_pure : (m : M Unit) (w : World) → (m >> pure tt) w ≡ m w
then_pure m w = continue-pure (m w).0 (m w).1

abbrev is_failure : Outcome (Unit {0}) → Bool
is_failure (ok a) = false
is_failure (err e) = true
is_failure (panic p) = true

-- the activation actions that are supported, by their names
abbrev supported_actions : List String
supported_actions = "" ∷ "switch" ∷ "boot" ∷ "test" ∷ "dry-activate" ∷ []

abbrev pub is_supported : String → Bool
is_supported action = any (λ name. action =ₛ name) supported_actions

is_action-is_supported : (action : String) → is_action action ≡ is_supported action
unfolding is_action
is_action-is_supported action = ground arith

module _ (sys : System) (install activation : CommandLine) where
  -- the subprocesses that the switch should run, the last first
  abbrev pub expected : String → Bool → List Invocation
  expected action install_fails =
      if is_supported action
      then (if action =ₛ "" || install_fails then [] else issued sys activation ∷ [])
        ++ issued sys install ∷ []
      else []

  after_install :
      (o : Outcome (Unit {0})) (w : World) (is : List Invocation)
      → invocations w.log ≡ issued sys install ∷ is
      → invocations (continue (λ (x : Unit {0}). execute_command sys activation) o w).1.log
        ≡ (if is_failure o then [] else issued sys activation ∷ []) ++ issued sys install ∷ is
  after_install (ok a) w is h =
      execute_command-invocations sys activation w ∙ ap (λ x. issued sys activation ∷ x) h
  after_install (err e) w is h = h
  after_install (panic p) w is h = h

  supported :
      (action : String) (w : World)
      → is_action action ≡ true
      → is_supported action ≡ true
      → invocations (install_and_activate sys install activation action w).1.log
        ≡ expected action (is_failure (execute_command sys install w).0) ++ invocations w.log
  unfolding install_and_activate
  supported action w h h' = elim (Bool-cases (action =ₛ "")) [
    | inl t ↦
        rw (h, h', t, then_pure (execute_command sys install) w)
          (execute_command-invocations sys install w)
    | inr t ↦
        rw (h, h', t, append_assoc)
          (after_install (execute_command sys install w).0 _ (invocations w.log)
            (execute_command-invocations sys install w))
  ]

  -- For an activation action other than the empty one, "switch", "boot", "test" and "dry-activate"
  -- nothing is run; for the empty one only the installation; for the other four the installation first and then, if it succeeded, the activation.
  pub install_and_activate-invocations :
      (action : String) (w : World)
      → invocations (install_and_activate sys install activation action w).1.log
        ≡ expected action (is_failure (execute_command sys install w).0) ++ invocations w.log
  unfolding install_and_activate
  install_and_activate-invocations action w = elim (Bool-cases (is_action action)) [
    | inl t ↦ supported action w t (sym (is_action-is_supported action) ∙ t)
    | inr t ↦ rw (t, sym (is_action-is_supported action) ∙ t) refl
  ]
