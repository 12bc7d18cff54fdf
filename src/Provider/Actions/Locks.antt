-- ===== src/Provider/Actions/Locks.antt =====
-- `Build` of provider/provider.go and the locked buffers.
use terraform_provider_nixos.Base.{String, List, [], ◌∷◌, Option, none, some, Outcome}
use terraform_provider_nixos.Base.Hex.{Bytes}
use terraform_provider_nixos.System.{System, World, Attempt, done, refused, M}
use terraform_provider_nixos.System.Locks.{
  SameLocks, SameLocks-refl, SameLocks-trans, KeepsLocks, KeepsLocks-bind, lock_rules,
}
use terraform_provider_nixos.Files.{File}
use terraform_provider_nixos.Files.Locks
use terraform_provider_nixos.Files.Locks.{new_nix_wrapper_file-KeepsLocks}
use terraform_provider_nixos.Settings.{ResourceBox}
use terraform_provider_nixos.Nix.{Nix}
use terraform_provider_nixos.Nix.Build.{NixBuildCommand}
use terraform_provider_nixos.Nix.Build.Locks.{execute-KeepsLocks}
use terraform_provider_nixos.Nix.Derivation.{Derivation}
use terraform_provider_nixos.Provider.{Provider}
use terraform_provider_nixos.Provider.Objects.Locks.{provider_nix-KeepsLocks, nix_close-SameLocks}
use terraform_provider_nixos.Provider.Actions.{
  using, abs_failed, single, run_build, build_with, build_nix, build,
}

pub KeepsLocks-using :
    {A B : Type 0} (make : M A) (close : A → World → World) (body : A → M B)
    → KeepsLocks make
    → ((a : A) (w : World) → SameLocks w (close a w))
    → ((a : A) → KeepsLocks (body a))
    → KeepsLocks (using make close body)
KeepsLocks-using make close body q l k =
    KeepsLocks-bind make _ q
      λ a. record { keeps = λ w. SameLocks-trans ((k a).keeps w) (l a (body a w).1) }

abs_failed-KeepsLocks : (c : String) (o : Attempt String) → KeepsLocks (abs_failed c o)
unfolding abs_failed
abs_failed-KeepsLocks c (done s) = record { keeps = SameLocks-refl }
abs_failed-KeepsLocks c (refused e) = record { keeps = SameLocks-refl }

single-KeepsLocks : (c : String) (o : Option (List Derivation)) → KeepsLocks (single c o)
unfolding single
single-KeepsLocks c none = record { keeps = SameLocks-refl }
single-KeepsLocks c (some []) = record { keeps = SameLocks-refl }
single-KeepsLocks c (some (d ∷ [])) = record { keeps = SameLocks-refl }
single-KeepsLocks c (some (d ∷ e ∷ ds)) = record { keeps = SameLocks-refl }

module _ (sys : System) (decode : Bytes → Outcome (List Derivation)) where
  run_build-KeepsLocks : (c : String) (n : NixBuildCommand) → KeepsLocks (run_build sys decode c n)
  unfolding run_build
  run_build-KeepsLocks c n = search (lock_rules, execute-KeepsLocks, single-KeepsLocks) depth 10

  build_with-KeepsLocks :
      (r : ResourceBox) (system : String) (n : Nix) (f : File)
      → KeepsLocks (build_with sys decode r system n f)
  unfolding build_with
  build_with-KeepsLocks r system n f =
      search (lock_rules, run_build-KeepsLocks, abs_failed-KeepsLocks) depth 10

  build_nix-KeepsLocks :
      {IP IPNet : Type 0} (p : Provider IP IPNet) (r : ResourceBox) (n : Nix)
      → KeepsLocks (build_nix sys decode p r n)
  unfolding build_nix
  build_nix-KeepsLocks p r n =
      search
        (
          lock_rules, KeepsLocks-using, new_nix_wrapper_file-KeepsLocks, Locks.close-SameLocks,
          build_with-KeepsLocks,
        )
        depth 12

  pub build-KeepsLocks :
      {IP IPNet : Type 0} (p : Provider IP IPNet) (r : ResourceBox)
      → KeepsLocks (build sys decode p r)
  unfolding build
  build-KeepsLocks p r =
      KeepsLocks-using _ _ _ (provider_nix-KeepsLocks sys p (some r)) (nix_close-SameLocks sys)
        (build_nix-KeepsLocks p r)
