-- ===== src/Provider/Objects/Leftover.antt =====
-- The temporary files of `NewSsh` of provider/provider.go: the ssh command of the bastion, whose
-- configuration is one, is not closed.
use terraform_provider_nixos.Base.{
  ℕ, String, ◌≡◌, refl, sym, ap, ◌∙◌, [], ◌∷◌, ◌++◌, Option, Outcome, ok, err, panic, length,
  append-nil, arith, if◌then◌else◌, Bool-cases, inl, inr,
}
use terraform_provider_nixos.Base.Assoc.{Map, IsMap}
use terraform_provider_nixos.Base.Assoc.Ends.{keys}
use terraform_provider_nixos.Base.Text.{is_nonempty}
use terraform_provider_nixos.System.{System, World}
use terraform_provider_nixos.Files.Laws.{
  IsFresh, CanRemove, OnOk, OnOk-bind, OnOk-weaken, OnOk-ends, OnOk-both, OnOk-lift,
}
use terraform_provider_nixos.Settings.{ResourceBox, Fields, value_of}
use terraform_provider_nixos.Ssh.{Ssh, new_ssh, close}
use terraform_provider_nixos.Ssh.ConfigMap
use terraform_provider_nixos.Ssh.ConfigMap.{SshConfigMap}
use terraform_provider_nixos.Ssh.Laws.{Owns, new_ssh-Owns, new_ssh-close}
use terraform_provider_nixos.Ssh.Count.{new_ssh-Adds}
use terraform_provider_nixos.Provider.{Provider, ssh_settings, bastion_settings, string_or_empty}
use terraform_provider_nixos.Provider.Objects.{
  ssh_config_map, bastion_options, proxy_command, add_bastion, config_options, provider_ssh,
}

abbrev host_of : Fields → String
host_of fs = string_or_empty (value_of "host" fs)

-- one, if the settings have a bastion
abbrev pub bastions : Outcome Fields → ℕ
bastions (ok fs) = if is_nonempty (host_of fs) then 1 else 0
bastions (err e) = 0
bastions (panic p) = 0

-- So many files more than these.
record Left (fs : Map String) (n : ℕ) (w : World) : Type 0 where
  pub own : Map String
  pub files_eq : w.files ≡ fs ++ own
  pub count : length own ≡ n
  pub distinct : IsMap w.files

length-keys : (m : Map String) → length (keys m) ≡ length m
length-keys [] = refl
length-keys ((k, v) ∷ m) = omega (arith, length-keys m)

Left-Owns :
    (fs : Map String) (s : Ssh) (n : ℕ) (w : World)
    → Owns fs s w
    → length s.finalizers ≡ n
    → Left fs n w
Left-Owns fs s n w h e = record {
  own = h.own;
  files_eq = h.files_eq;
  count = sym (length-keys h.own) ∙ ap length (sym h.finalizers_eq) ∙ e;
  distinct = h.distinct;
}

module _ (sys : System) (fresh : IsFresh sys) where
  add_bastion-Left :
      (fs : Fields) (m : SshConfigMap) (w : World)
      → IsMap w.files
      → OnOk (λ _ v. Left w.files (bastions (ok fs)) v) (add_bastion sys fs m w)
  unfolding add_bastion bastion_options
  add_bastion-Left fs m w d = elim (Bool-cases (is_nonempty (host_of fs))) [
    | inl h ↦
        let P : Ssh → World → Type 0 = λ s v. Owns w.files s v × (length s.finalizers ≡ 1) in
        let Q : SshConfigMap → World → Type 0 = λ _ v. Left w.files 1 v in
        rw h (
          OnOk-lift Q (ssh_config_map fs) _ w λ own _. OnOk-lift Q (ConfigMap.copy m) _ w λ base _.
            OnOk-lift Q (ConfigMap.extend base own) _ w λ extended _.
              let options = bastion_options extended (host_of fs) in
              OnOk-bind P Q (new_ssh sys options) _ w
                (OnOk-both (Owns w.files) _ (new_ssh sys options w)
                  (new_ssh-Owns sys options w fresh d) (new_ssh-Adds sys options w))
                λ s v o.
                  OnOk-ends (Left w.files 1) (ConfigMap.set "proxyCommand" (proxy_command s) m, v)
                    (Left-Owns w.files s 1 v o.0 o.1))
    | inr h ↦
        rw h (record { own = []; files_eq = sym (append-nil w.files); count = refl; distinct = d })
  ]

-- Behind `Close`, these files are left.
pub record Leftover (sys : System) (fs : Map String) (n : ℕ) (s : Ssh) (w : World) : Type 0 where
  pub left : Map String
  pub files_eq : (close sys s w).files ≡ fs ++ left
  pub count : length left ≡ n

module _ {IP IPNet : Type 0} (sys : System) (p : Provider IP IPNet)
    (resource : Option ResourceBox) where
  -- If the system gives temporary files new names, no removal of a file fails and no file exists
  -- twice, then closing the ssh command of `NewSsh` right after it was made leaves the temporary
  -- files that were there before, and exactly one more, that of the bastion, if the settings have a
  -- bastion's host.
  pub provider_ssh-Leftover :
      (w : World)
      → IsFresh sys
      → CanRemove sys
      → IsMap w.files
      → OnOk
          (Leftover sys w.files (bastions (bastion_settings p resource)))
          (provider_ssh sys p resource w)
  unfolding provider_ssh
  provider_ssh-Leftover w fresh can d =
      let Q = Leftover sys w.files (bastions (bastion_settings p resource)) in
      OnOk-lift Q (ssh_settings p resource) _ w λ settings _.
        OnOk-lift Q (ssh_config_map settings) _ w λ m _.
          OnOk-lift Q (bastion_settings p resource) _ w λ fs e.
            OnOk-bind (λ _ v. Left w.files (bastions (ok fs)) v) Q (add_bastion sys fs m) _ w
              (add_bastion-Left sys fresh fs m w d)
              λ m' v h.
                OnOk-weaken (λ s u. (close sys s u).files ≡ v.files) Q
                  (λ s u c. record {
                    left = h.own;
                    files_eq = c ∙ h.files_eq;
                    count = h.count ∙ ap bastions (sym e);
                  })
                  (new_ssh sys (config_options m') v)
                  (new_ssh-close sys (config_options m') v fresh can h.distinct)
