-- ===== src/Examples/Bastion.antt =====
-- An ssh command with a bastion, on a machine with room for two temporary files.
use terraform_provider_nixos.Base.{
  ℕ, ◌≡◌, refl, String, ◌=ₛ◌, if◌then◌else◌, [], Option, none, some, external,
}
use mathlib.Core.Path.{subst}
use terraform_provider_nixos.Base.Assoc.{lookup}
use terraform_provider_nixos.System.{System, World, Attempt, done, refused}
use terraform_provider_nixos.Files.Laws.{IsFresh, CanRemove, OnOk}
use terraform_provider_nixos.Settings.{
  resolve_settings, blocks, items_of, get_field, settings, ResourceBox, nil, str, set, map, item,
  none_left, end, field,
}
use terraform_provider_nixos.Provider.{Provider}
use terraform_provider_nixos.Provider.Objects.{provider_ssh}
use terraform_provider_nixos.Provider.Objects.Leftover.{Leftover, provider_ssh-Leftover}
use terraform_provider_nixos.Examples.{start, machine}

-- the first of two names that is free
free_name : Option String → Option String → Attempt String
free_name none o = done "ssh_config.1"
free_name (some s) none = done "ssh_config.2"
free_name (some s) (some t) = refused (external "file exists")

abbrev roomy : System
unfolding free_name
roomy = record machine {
  create_temp =
      λ w pattern. free_name (lookup "ssh_config.1" w.files) (lookup "ssh_config.2" w.files);
}

free_name_fresh :
    (w : World) (o q : Option String) (n : String)
    → lookup "ssh_config.1" w.files ≡ o
    → lookup "ssh_config.2" w.files ≡ q
    → free_name o q ≡ done n
    → lookup n w.files ≡ none
unfolding free_name
free_name_fresh w none q n h k e =
    let name : "ssh_config.1" ≡ n = cc in subst (λ i. lookup i w.files ≡ none) name h
free_name_fresh w (some s) none n h k e =
    let name : "ssh_config.2" ≡ n = cc in subst (λ i. lookup i w.files ≡ none) name k
free_name_fresh w (some s) (some t) n h k e = cc

roomy-IsFresh : IsFresh roomy
unfolding roomy
roomy-IsFresh = record { fresh = λ w pattern n h. free_name_fresh w _ _ n refl refl h }

roomy-CanRemove : CanRemove roomy
unfolding roomy machine
roomy-CanRemove = record { removes = λ w n. refl }

abbrev bastion_box : ResourceBox
bastion_box key =
    if key =ₛ "ssh"
    then set (item (map (field "user" (str "root") end)) none_left)
    else if key =ₛ "bastion"
    then set (item (map (field "host" (str "gate") end)) none_left)
    else nil

abbrev provider : Provider ℕ ℕ
provider = record { box = bastion_box; address_filter = []; address_priority = [] }

bastion_example : OnOk (Leftover roomy [] 1) (provider_ssh roomy provider none start)
unfolding lookup resolve_settings blocks items_of get_field settings
bastion_example = provider_ssh-Leftover roomy provider none start roomy-IsFresh roomy-CanRemove tt
