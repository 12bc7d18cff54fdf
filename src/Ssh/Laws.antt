-- ===== src/Ssh/Laws.antt =====
-- The temporary files of an ssh command of provider/ssh.go, from its options to its `Close`.
use terraform_provider_nixos.Base.{
  String, ◌≡◌, refl, ap, sym, ◌∙◌, Outcome, none, List, [], ◌∷◌, ◌++◌, append-nil, append_assoc,
}
use terraform_provider_nixos.Base.Assoc.{Map, lookup, IsMap, remove}
use terraform_provider_nixos.Base.Assoc.Ends.{keys, keys-append, IsMap-append_end}
use terraform_provider_nixos.System.{System, World, M, pure, ◌>>◌}
use terraform_provider_nixos.Files.{close_temp, create_temp, write}
use terraform_provider_nixos.Files.Laws.{
  IsFresh, CanRemove, close_temp-files, OnOk, OnOk-bind, OnOk-weaken, remove_own, create_temp-files,
  write-files,
}
use terraform_provider_nixos.Ssh.ConfigMap.{SshConfigMap, pairs, ssh_serialize_config}
use terraform_provider_nixos.Ssh.{
  Ssh, append_arguments, SshOption, option_config_map, or_panic, panic_on_error, finalizer_file,
  apply_option, apply_options, new_ssh, close, finalize_files,
}

-- The files of the world are `fs` and, behind them, one file for each finalizer, in order.
pub record Owns (fs : Map String) (s : Ssh) (w : World) : Type 0 where
  pub own : Map String
  pub files_eq : w.files ≡ fs ++ own
  pub finalizers_eq : s.finalizers ≡ keys own
  pub distinct : IsMap w.files

-- Closing the files of `own` one after the other leaves `fs`.
finalize_files-own :
    (sys : System) (fs own : Map String) (w : World)
    → CanRemove sys
    → w.files ≡ fs ++ own
    → IsMap w.files
    → (finalize_files sys (keys own) w).files ≡ fs
unfolding finalize_files
finalize_files-own sys fs [] w can h m = rw h (append-nil fs)
finalize_files-own sys fs ((k, v) ∷ own) w can h m =
    let (e, m') = remove_own fs own k v (rw h at m) in
    let e' = close_temp-files sys k w can ∙ ap (remove k) h ∙ e in
    finalize_files-own sys fs own (close_temp sys k w).1 can e' (rw e' m')

-- Closing an ssh command removes the files that it owns and no other.
pub files-close :
    (sys : System) (fs : Map String) (s : Ssh) (w : World)
    → CanRemove sys
    → Owns fs s w
    → (close sys s w).files ≡ fs
unfolding close
files-close sys fs s w can h =
    rw h.finalizers_eq (finalize_files-own sys fs h.own w can h.files_eq h.distinct)

OnOk-panic_on_error :
    {A : Type 0} (P : A → World → Type 0) (o : Outcome A) (w : World)
    → OnOk P (o, w)
    → OnOk P (panic_on_error o w)
unfolding panic_on_error
OnOk-panic_on_error P (Outcome.ok a) w h = h
OnOk-panic_on_error P _ w h = tt

OnOk-or_panic :
    {A : Type 0} (P : A → World → Type 0) (m : M A) (w : World)
    → OnOk P (m w)
    → OnOk P (or_panic m w)
unfolding or_panic
OnOk-or_panic P m w h = OnOk-panic_on_error P (m w).0 (m w).1 h

module _ (sys : System) (fresh : IsFresh sys) (fs : Map String) where
  -- the option that creates a file
  config_map-Owns :
      (m : SshConfigMap) (s : Ssh) (w : World)
      → Owns fs s w
      → OnOk (Owns fs) (apply_option sys (option_config_map m) s w)
  unfolding apply_option finalizer_file
  config_map-Owns m s w h =
      let text = ssh_serialize_config (pairs m) in
      let result : String → M Ssh =
        λ n. pure (append_arguments ("-F" ∷ n ∷ []) (finalizer_file n s)) in
      OnOk-bind (λ n w'. (w'.files ≡ w.files ++ (n, "") ∷ []) × (lookup n w.files ≡ none)) (Owns fs)
        (or_panic (create_temp sys "ssh_config.*")) (λ n. or_panic (write sys n text) >> result n) w
        (OnOk-or_panic _ (create_temp sys "ssh_config.*") w
          (create_temp-files sys fresh "ssh_config.*" w))
        λ n w' c.
          OnOk-bind (λ _ w''. w''.files ≡ w.files ++ (n, text) ∷ []) (Owns fs)
            (or_panic (write sys n text)) (λ _. result n) w'
            (OnOk-or_panic _ (write sys n text) w'
              (write-files sys fresh n text w.files w' c.0 c.1))
            λ _ w'' e. record {
              own = h.own ++ (n, text) ∷ [];
              files_eq =
                  e
                  ∙ ap (λ (x : Map String). x ++ (n, text) ∷ []) h.files_eq
                  ∙ append_assoc fs h.own _;
              finalizers_eq =
                  ap (λ (x : List String). x ++ n ∷ []) h.finalizers_eq
                  ∙ sym (keys-append h.own n text);
              distinct = rw e (IsMap-append_end n text w.files c.1 h.distinct);
            }

  apply_option-Owns :
      (o : SshOption) (s : Ssh) (w : World) → Owns fs s w → OnOk (Owns fs) (apply_option sys o s w)
  unfolding apply_option
  apply_option-Owns (option_config_map m) s w h = config_map-Owns m s w h
  apply_option-Owns _ s w h = record {
    own = h.own;
    files_eq = h.files_eq;
    finalizers_eq = h.finalizers_eq;
    distinct = h.distinct;
  }

  pub apply_options-Owns :
      (os : List SshOption) (s : Ssh) (w : World)
      → Owns fs s w
      → OnOk (Owns fs) (apply_options sys os s w)
  unfolding apply_options
  apply_options-Owns [] s w h = h
  apply_options-Owns (o ∷ os) s w h =
      OnOk-bind (Owns fs) (Owns fs) (apply_option sys o s) (apply_options sys os) w
        (apply_option-Owns o s w h) (apply_options-Owns os)

pub new_ssh-Owns :
    (sys : System) (options : List SshOption) (w : World)
    → IsFresh sys
    → IsMap w.files
    → OnOk (Owns w.files) (new_ssh sys options w)
unfolding new_ssh
new_ssh-Owns sys options w fresh m =
    apply_options-Owns sys fresh w.files options (record { arguments = []; finalizers = [] }) w
      (record { own = []; files_eq = sym (append-nil w.files); finalizers_eq = refl; distinct = m })

-- If the system gives temporary files new names, no removal of a file fails and no file exists
-- twice, then closing an ssh command right after it was made leaves exactly the temporary files that
-- were there before.
pub new_ssh-close :
    (sys : System) (options : List SshOption) (w : World)
    → IsFresh sys
    → CanRemove sys
    → IsMap w.files
    → OnOk (λ s w'. (close sys s w').files ≡ w.files) (new_ssh sys options w)
new_ssh-close sys options w fresh can m =
    OnOk-weaken (Owns w.files) _ (λ s w' h. files-close sys w.files s w' can h)
      (new_ssh sys options w) (new_ssh-Owns sys options w fresh m)
