-- ===== src/Files/Locks.antt =====
-- Temporary files and the locked buffers: creating, writing and closing files.
use terraform_provider_nixos.Base.{refl, String, Outcome, ok, err, panic, inl, inr}
use terraform_provider_nixos.System.{System, World}
use terraform_provider_nixos.System.Run.{Attempt-cases}
use terraform_provider_nixos.System.Locks.{SameLocks, SameLocks-refl, KeepsLocks, lock_rules}
use terraform_provider_nixos.Files.{
  File, temp, opened, create_temp, write, after_write, new_nix_wrapper_file, close_temp, close,
}

create_temp-SameLocks :
    (sys : System) (pattern : String) (w : World) → SameLocks w (create_temp sys pattern w).1
unfolding create_temp
create_temp-SameLocks sys pattern w = elim (Attempt-cases (sys.create_temp w pattern)) [
  | inl (n, e) ↦ rw (e, create_temp) (record { locked_eq = refl; next_eq = refl })
  | inr (e, q) ↦ rw (q, create_temp) (SameLocks-refl w)
]

write-SameLocks : (sys : System) (n s : String) (w : World) → SameLocks w (write sys n s w).1
unfolding write
write-SameLocks sys n s w = elim (Attempt-cases (sys.write w n)) [
  | inl (u, e) ↦ rw (e, write) (record { locked_eq = refl; next_eq = refl })
  | inr (e, q) ↦ rw (q, write) (SameLocks-refl w)
]

pub create_temp-KeepsLocks :
    (sys : System) (pattern : String) → KeepsLocks (create_temp sys pattern)
create_temp-KeepsLocks sys pattern = record { keeps = create_temp-SameLocks sys pattern }

pub write-KeepsLocks : (sys : System) (n s : String) → KeepsLocks (write sys n s)
write-KeepsLocks sys n s = record { keeps = write-SameLocks sys n s }

pub close_temp-SameLocks :
    (sys : System) (n : String) (w : World) → SameLocks w (close_temp sys n w).1
unfolding close_temp
close_temp-SameLocks sys n w = elim (Attempt-cases (sys.remove_file w n)) [
  | inl (u, e) ↦ rw (e, close_temp) (record { locked_eq = refl; next_eq = refl })
  | inr (e, q) ↦ rw (q, close_temp) (SameLocks-refl w)
]

pub close-SameLocks : (sys : System) (f : File) (w : World) → SameLocks w (close sys f w)
unfolding close
close-SameLocks sys (temp n) w = close_temp-SameLocks sys n w
close-SameLocks sys (opened n) w = SameLocks-refl w

after_write-KeepsLocks :
    (sys : System) (n : String) (o : Outcome (Unit {0})) → KeepsLocks (after_write sys n o)
unfolding after_write
after_write-KeepsLocks sys n (ok u) = record { keeps = SameLocks-refl }
after_write-KeepsLocks sys n (err e) = record { keeps = close_temp-SameLocks sys n }
after_write-KeepsLocks sys n (panic p) = record { keeps = SameLocks-refl }

pub new_nix_wrapper_file-KeepsLocks :
    (sys : System) (path : String) → KeepsLocks (new_nix_wrapper_file sys path)
unfolding new_nix_wrapper_file
new_nix_wrapper_file-KeepsLocks sys path =
    search (lock_rules, create_temp-KeepsLocks, write-KeepsLocks, after_write-KeepsLocks) depth 12
