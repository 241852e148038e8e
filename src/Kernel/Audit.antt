-- ===== src/Kernel/Audit.antt =====
-- buster/kernel/audit.py: the audit log with its rotation. Details are of any type `D`, times are whole
-- seconds, `size` is the size of a file that holds some lines. Writes do not fail.
pub mod Trail
mod Tests
use aioperator.Prelude.{
  ℕ, ◌≡◌, Bool, Option, none, some, List, [], ◌∷◌, ◌++◌, String, if◌then◌else◌, ltb, last_n, get_or,
}
use aioperator.Dict.{Dict, get, put, nat_eq}
use aioperator.Memory.Lines.{Line, row, readable, lines_of}

pub record AuditEntry (D : Type 0) : Type 0 where
  pub ts : ℕ
  pub action : String
  pub actor : String
  pub detail : D

-- `rotated` are the files that were moved away, by the time in their names.
pub record Audit (D : Type 0) : Type 0 where
  pub file : Option (List (Line (AuditEntry D)))
  pub rotated : Dict ℕ (List (Line (AuditEntry D)))
  pub max_bytes : ℕ

module _ {D : Type 0} where
  -- `_rotate`
  abbrev pub move : ℕ → Option (List (Line (AuditEntry D))) → Audit D → Audit D
  move now none a = a
  move now (some lines) a = record a { file = none; rotated = put now lines a.rotated }

  unfoldable pub rotate : ℕ → Audit D → Audit D
  rotate now a = move now a.file a

  abbrev pub append : AuditEntry D → Audit D → Audit D
  append e a = record a { file = some (lines_of a.file ++ row e ∷ []) }

  abbrev pub is_full : (List (Line (AuditEntry D)) → ℕ) → Audit D → Bool
  is_full size a = elim a.file [ none ↦ Bool.false | some lines ↦ ltb a.max_bytes (size lines) ]

  -- `record`; `empty` is the detail for none.
  unfoldable pub record_entry :
      (size : List (Line (AuditEntry D)) → ℕ) (empty : D) (now : ℕ) (action actor : String)
      → Option D
      → Audit D
      → Audit D
  unfolding rotate
  record_entry size empty now action actor detail a =
      append (record { ts = now; action = action; actor = actor; detail = get_or detail empty })
        (if is_full size a then rotate now a else a)

  unfoldable pub tail : ℕ → Audit D → List (AuditEntry D)
  tail limit a = last_n limit (readable (lines_of a.file))
