-- ===== src/Security/Protection.antt =====
-- buster/security/protection.py: the guard of paths that must not be deleted. Paths are texts as lists
-- of code points, `cwd` is the working directory, and `matches` is `re.compile(pattern).match(path)`.
pub mod Guarded
mod Tests
use aioperator.Prelude.{
  ℕ, Bool, true, false, ◌||◌, Option, none, some, List, [], ◌∷◌, ◌++◌, if◌then◌else◌, map, any,
  codes, drop, length,
}
use aioperator.Prelude.Strings.{Text, same_text, has_prefix}
use aioperator.Prelude.Paths.{abspath, ends_in_slash}

-- What `_compile` makes of a pattern.
pub data Guard : Type 0 where
  regex : Text → Guard
  below : Text → Guard
  at_or_below : Text → Guard

pub record DeleteProtection : Type 0 where
  pub patterns : List Text
  pub compiled : List Guard

-- `s[:-1]`
abbrev pub without_last : Text → Text
without_last [] = []
without_last (c ∷ []) = []
without_last (c ∷ d ∷ s) = c ∷ without_last (d ∷ s)

-- `(?:$|/)` behind a path: the end, also before a last line feed, or a slash.
abbrev pub ends_or_goes_on : Text → Bool
ends_or_goes_on [] = true
ends_or_goes_on (c ∷ s) = same_text (c ∷ s) (codes "\n") || has_prefix (codes "/") (c ∷ s)

module _ (cwd : Text) (matches : Text → Text → Bool) where
  unfoldable pub compile : Text → Guard
  unfolding abspath
  compile pattern =
      if has_prefix (codes "re:") pattern
      then regex (drop 3 pattern)
      else if ends_in_slash pattern
      then below (abspath cwd (without_last pattern) ++ codes "/")
      else at_or_below (abspath cwd pattern)

  unfoldable pub init : List Text → DeleteProtection
  unfolding compile
  init patterns = record { patterns = patterns; compiled = map compile patterns }

  unfoldable pub protect : Text → DeleteProtection → DeleteProtection
  unfolding compile
  protect pattern p = record {
    patterns = p.patterns ++ pattern ∷ [];
    compiled = p.compiled ++ compile pattern ∷ [];
  }

  -- `p.match(absolute)`
  unfoldable pub matched : Text → Guard → Bool
  unfolding same_text
  matched absolute (regex r) = matches r absolute
  matched absolute (below prefix) = has_prefix prefix absolute
  matched absolute (at_or_below path) =
      if has_prefix path absolute then ends_or_goes_on (drop (length path) absolute) else false

  unfoldable pub is_protected : Text → DeleteProtection → Bool
  unfolding matched abspath
  is_protected path p = any p.compiled (matched (abspath cwd path))

  -- `ensure_allowed`: the error is a `ProtectedPathError` with the absolute path.
  unfoldable pub ensure_allowed : Option Text → DeleteProtection → Option Text
  unfolding is_protected
  ensure_allowed none p = none
  ensure_allowed (some path) p = if is_protected path p then some (abspath cwd path) else none

unfoldable pub describe : DeleteProtection → List Text
describe p = p.patterns
