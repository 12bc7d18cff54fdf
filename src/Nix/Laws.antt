-- ===== src/Nix/Laws.antt =====
-- The commands of provider/nix.go that the provider runs, in both modes, and what `Nix.With` copies.
use terraform_provider_nixos.Base.{
  Bool-cases, inl, inr, ℕ, ◌≡◌, refl, String, List, [], ◌∷◌, ◌++◌, if◌then◌else◌, ◌==◌,
  append_assoc, append-nil,
}
use terraform_provider_nixos.Command.{CommandOption}
use terraform_provider_nixos.Nix.{Nix, with, mode_compat, apply_options}
use terraform_provider_nixos.Nix
use terraform_provider_nixos.Nix.Profile
use terraform_provider_nixos.Nix.Profile.{
  option_profile, option_derivation, profile, install, profile_command,
}

-- Setting a profile runs `nix-env --profile p --set d` in the compatibility mode, and
-- `nix … profile install --profile p --derivation d` in every other mode, with the options of the nix
-- command in both.
pub install_modes :
    (n : Nix) (p d : String)
    → Profile.command (install (profile n) (option_profile p ∷ option_derivation d ∷ [])) ≡ (
        if n.mode == mode_compat
        then record {
          name = "nix-env";
          arguments = "--profile" ∷ p ∷ "--set" ∷ d ∷ [];
          options = (Nix.command n).options;
        }
        else record {
          name = "nix";
          arguments =
              n.arguments ++ "profile" ∷ "install" ∷ "--profile" ∷ p ∷ "--derivation" ∷ d ∷ [];
          options = (Nix.command n).options;
        })
unfolding Profile.command install profile profile_command Profile.apply_options Profile.apply_option
    Nix.command
install_modes n p d = elim (Bool-cases (n.mode == mode_compat)) [
  | inl t ↦ rw (t, t) refl
  | inr t ↦ rw (t, t) (simp (append-nil, append_assoc))
]

-- `With` forgets the mode and the command options: what it returns does not depend on them.
pub with_forgets :
    (options : List Nix.NixOption) (n : Nix) (mode : ℕ) (command_options : List CommandOption)
    → with options n ≡ with options (record n { mode = mode; command_options = command_options })
unfolding with
with_forgets options n mode command_options = refl
