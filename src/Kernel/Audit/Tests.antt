-- ===== src/Kernel/Audit/Tests.antt =====
-- Records, rotations and reads of the audit log, and the theorem about it.
use aioperator.Prelude.{ℕ, ◌≡◌, refl, none, some, [], ◌∷◌, ◌++◌, length}
use aioperator.Dict.{get, put, nat_eq}
use aioperator.Memory.Lines.{row, junk}
use aioperator.Kernel.Audit.{AuditEntry, Audit, rotate, record_entry, tail}
use aioperator.Kernel.Audit.Trail.{trail, trail-record_entry}

program : Unit {0}
unfolding get put rotate record_entry tail
program = tt

abbrev entry : ℕ → AuditEntry ℕ
entry n = record { ts = n; action = "a"; actor = "kernel"; detail = 0 }

abbrev full : Audit ℕ
full = record {
  file = some (row (entry 1) ∷ junk ∷ row (entry 2) ∷ []);
  rotated = (0, row (entry 0) ∷ []) ∷ [];
  max_bytes = 2;
}

-- After a rotation the log reads as one entry long; a limit of 0 is no limit.
run_tests :
    (tail 5 (record_entry length 0 3 "a" "kernel" none full) ≡ entry 3 ∷ [])
    × (tail 0 full ≡ entry 1 ∷ entry 2 ∷ [])
    × (tail 1 full ≡ entry 2 ∷ [])
unfolding program
run_tests = (refl, refl, refl)

trail-record_entry_example :
    trail (record_entry length 0 3 "a" "kernel" none full) ≡ trail full ++ entry 3 ∷ []
unfolding program
trail-record_entry_example = trail-record_entry length 0 3 "a" "kernel" none full refl
