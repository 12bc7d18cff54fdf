-- ===== src/Ssh/Count.antt =====
-- How many temporary files the options of provider/ssh.go create.
use terraform_provider_nixos.Base.{ℕ, ◌+◌, ◌≡◌, List, [], ◌∷◌, length, length-append, arith}
use terraform_provider_nixos.Base.{String}
use terraform_provider_nixos.System.{System, World, M, pure, ◌>>◌}
use terraform_provider_nixos.Files.{create_temp, write}
use terraform_provider_nixos.Ssh.ConfigMap.{pairs, ssh_serialize_config}
use terraform_provider_nixos.Files.Laws.{OnOk, OnOk-bind, OnOk-then, OnOk-weaken}
use terraform_provider_nixos.Ssh.{
  Ssh, SshOption, append_arguments, or_panic, option_config_map, apply_option, apply_options,
  new_ssh, finalizer_file,
}

-- one for each configuration map
abbrev pub created : List SshOption → ℕ
created [] = 0
created (option_config_map m ∷ os) = 1 + created os
created (o ∷ os) = created os

-- So many finalizers were added.
abbrev Adds : ℕ → Ssh → Ssh → World → Type 0
Adds n s s' w = length s'.finalizers ≡ length s.finalizers + n

apply_option-Adds :
    (sys : System) (o : SshOption) (s : Ssh) (w : World)
    → OnOk (Adds (created (o ∷ [])) s) (apply_option sys o s w)
unfolding apply_option finalizer_file
apply_option-Adds sys (option_config_map m) s w =
    let text = ssh_serialize_config (pairs m) in
    let result : String → M Ssh =
      λ n. pure (append_arguments ("-F" ∷ n ∷ []) (finalizer_file n s)) in
    let P = Adds 1 s in
    OnOk-then P (or_panic (create_temp sys "ssh_config.*"))
      (λ n. or_panic (write sys n text) >> result n) w
      λ n v.
        OnOk-then P (or_panic (write sys n text)) (λ _. result n) v
          λ _ v'. length-append s.finalizers (n ∷ [])
apply_option-Adds sys o s w = omega arith

created-cons :
    (o : SshOption) (os : List SshOption) (a b c : ℕ)
    → b ≡ a + created (o ∷ [])
    → c ≡ b + created os
    → c ≡ a + created (o ∷ os)
created-cons (option_config_map m) os a b c h k = omega arith
created-cons o os a b c h k = omega arith

pub apply_options-Adds :
    (sys : System) (os : List SshOption) (s : Ssh) (w : World)
    → OnOk (Adds (created os) s) (apply_options sys os s w)
unfolding apply_options
apply_options-Adds sys [] s w = omega arith
apply_options-Adds sys (o ∷ os) s w =
    let P = Adds (created (o ∷ [])) s in
    let Q = Adds (created (o ∷ os)) s in
    OnOk-bind P Q (apply_option sys o s) (apply_options sys os) w (apply_option-Adds sys o s w)
      λ s' v h.
        OnOk-weaken (Adds (created os) s') Q (λ t u k. created-cons o os _ _ _ h k)
          (apply_options sys os s' v) (apply_options-Adds sys os s' v)

pub new_ssh-Adds :
    (sys : System) (os : List SshOption) (w : World)
    → OnOk (λ s _. length s.finalizers ≡ created os) (new_ssh sys os w)
unfolding new_ssh
new_ssh-Adds sys os w =
    let empty : Ssh = record { arguments = []; finalizers = [] } in
    OnOk-weaken (Adds (created os) empty) _ (λ s v h. omega arith) (apply_options sys os empty w)
      (apply_options-Adds sys os empty w)
