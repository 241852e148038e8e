-- ===== src/Security/Protection/Tests.antt =====
-- A guard like the kernel's, and the theorems about it.
use aioperator.Prelude.{◌≡◌, refl, Bool, true, false, none, some, [], ◌∷◌, codes}
use aioperator.Prelude.Strings.{Text, same_text, split_on}
use aioperator.Prelude.Paths.{steps, normpath, abspath}
use aioperator.Security.Protection.{
  DeleteProtection, compile, init, protect, matched, is_protected, ensure_allowed, describe,
}
use aioperator.Security.Protection.Guarded.{is_protected-plain}

program : Unit {0}
unfolding same_text split_on steps normpath abspath compile init protect matched is_protected
    ensure_allowed describe
program = tt

abbrev no_match : Text → Text → Bool
no_match r t = false

abbrev cwd : Text
cwd = codes "/home/u"

-- The patterns that the kernel makes of its install path.
abbrev guard : DeleteProtection
unfolding program
guard = init cwd no_match (codes "/opt/b/" ∷ codes "/opt/b/config" ∷ [])

-- The guarded directory itself, and the one above it, are not covered.
run_tests :
    (is_protected cwd no_match (codes "/opt/b/x") guard ≡ true)
    × (is_protected cwd no_match (codes "../../opt//b/./config") guard ≡ true)
    × (is_protected cwd no_match (codes "/opt/b") guard ≡ false)
    × (is_protected cwd no_match (codes "/opt/b/") guard ≡ false)
    × (ensure_allowed cwd no_match (some (codes "/opt")) guard ≡ none)
    × (ensure_allowed cwd no_match (some (codes "/opt/b/../b/x")) guard ≡ some (codes "/opt/b/x"))
unfolding program
run_tests = (refl, refl, refl, refl, refl, refl)

is_protected-plain_example :
    is_protected cwd no_match (codes "data/x") (protect cwd no_match (codes "data") guard) ≡ true
unfolding program
is_protected-plain_example =
    is_protected-plain cwd no_match (codes "data") (codes "data/x") (codes "/x") guard refl refl
      refl refl
