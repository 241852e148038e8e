-- ===== src/Kernel/Audit/Trail.antt =====
-- buster/kernel/audit.py: what is written is neither lost nor changed.
use mathlib.Core.List.{append_assoc, append-nil}
use aioperator.Prelude.{
  ℕ, ◌≡◌, refl, sym, ap, ◌∙◌, Bool-cases, inl, inr, Option, none, some, List, [], ◌∷◌, ◌++◌, String,
  if◌then◌else◌, get_or, arith, ◌==◌,
}
use aioperator.Dict.{Dict, get, put, nat_eq}
use aioperator.Memory.Lines.{Line, row, readable, lines_of, readable-append}
use aioperator.Kernel.Audit.{AuditEntry, Audit, move, rotate, append, is_full, record_entry}

module _ {D : Type 0} where
  abbrev pub moved : Dict ℕ (List (Line (AuditEntry D))) → List (AuditEntry D)
  moved [] = []
  moved ((t, lines) ∷ files) = readable lines ++ moved files

  -- All entries, those of the rotated files in the order of the rotations first.
  abbrev pub trail : Audit D → List (AuditEntry D)
  trail a = moved a.rotated ++ readable (lines_of a.file)

  moved-put :
      (now : ℕ) (lines : List (Line (AuditEntry D))) (files : Dict ℕ (List (Line (AuditEntry D))))
      → get now files ≡ none
      → moved (put now lines files) ≡ moved files ++ readable lines
  unfolding get put
  moved-put now lines [] h = append-nil (readable lines)
  moved-put now lines ((t, ls) ∷ files) h = elim (Bool-cases (t == now)) [
    | inl q ↦ absurd (ground (arith, h, q))
    | inr q ↦ rw q (
        ap (λ l. readable ls ++ l) (moved-put now lines files (ground (arith, h, q)))
        ∙ sym (append_assoc (readable ls) (moved files) (readable lines)))
  ]

  trail-move :
      (now : ℕ) (file : Option (List (Line (AuditEntry D)))) (a : Audit D)
      → a.file ≡ file
      → get now a.rotated ≡ none
      → trail (move now file a) ≡ trail a
  trail-move now none a e h = refl
  trail-move now (some lines) a e h =
      append-nil (moved (put now lines a.rotated))
      ∙ moved-put now lines a.rotated h
      ∙ ap (λ f. moved a.rotated ++ readable (lines_of f)) (sym e)

  trail-append : (e : AuditEntry D) (a : Audit D) → trail (append e a) ≡ trail a ++ e ∷ []
  trail-append e a =
      ap (λ l. moved a.rotated ++ l) (readable-append (lines_of a.file) (row e ∷ []))
      ∙ sym (append_assoc (moved a.rotated) (readable (lines_of a.file)) (e ∷ []))

  -- A record adds its entry at the end of the trail and changes nothing before it, also when the file is
  -- moved away first; the condition is that no file was moved away in the same second before.
  pub trail-record_entry :
      (size : List (Line (AuditEntry D)) → ℕ) (empty : D) (now : ℕ) (action actor : String)
      (detail : Option D) (a : Audit D)
      → get now a.rotated ≡ none
      → trail (record_entry size empty now action actor detail a)
        ≡ trail a
          ++ record { ts = now; action = action; actor = actor; detail = get_or detail empty } ∷ []
  unfolding record_entry rotate
  trail-record_entry size empty now action actor detail a h =
      let e : AuditEntry D = record {
        ts = now;
        action = action;
        actor = actor;
        detail = get_or detail empty;
      } in
      trail-append e (if is_full size a then rotate now a else a)
      ∙ ap (λ l. l ++ e ∷ [])
          (elim (Bool-cases (is_full size a)) [
            | inl q ↦ rw q (trail-move now a.file a refl h)
            | inr q ↦ rw q refl
          ])
