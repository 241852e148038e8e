-- ===== src/Security/Protection/Guarded.antt =====
-- buster/security/protection.py: which paths the guard covers, and which it does not.
use aioperator.Prelude.{
  ◌≤◌, ◌<◌, ◌≡◌, refl, ap, ◌∙◌, Bool, true, false, ◌||◌, Bool-cases, inl, inr, List, [], ◌∷◌, ◌++◌,
  codes, length, drop, any, any-append, All, arith,
}
use aioperator.Prelude.Strings.{Text, has_prefix}
use aioperator.Prelude.Paths.{abspath, ends_in_slash}
use aioperator.Prelude.Paths.Steps.{IsName, detour, normpath-detour}
use aioperator.Security.Protection.{
  Guard, regex, below, at_or_below, DeleteProtection, ends_or_goes_on, compile, protect, matched,
  is_protected,
}

has_prefix-append : (p s : Text) → has_prefix p (p ++ s) ≡ true
has_prefix-append [] s = refl
has_prefix-append (c ∷ p) s = ground (arith, has_prefix-append p s)

drop-append : (p s : Text) → drop (length p) (p ++ s) ≡ s
drop-append [] s = refl
drop-append (c ∷ p) s = drop-append p s

length-has_prefix : (p s : Text) → has_prefix p s ≡ true → length p ≤ length s
length-has_prefix [] s h = omega arith
length-has_prefix (c ∷ p) [] h = absurd (ground arith)
length-has_prefix (c ∷ p) (d ∷ s) h = ground (arith, length-has_prefix p s)

-- Behind a guarded path: nothing, or a slash and more.
abbrev pub IsBehind : Text → Type 0
IsBehind [] = Unit
IsBehind (c ∷ s) = c ≡ b'/'

or_true : (b : Bool) → (b || (true || false)) ≡ true
or_true true = refl
or_true false = refl

behind : (rest : Text) → IsBehind rest → ends_or_goes_on rest ≡ true
behind [] b = refl
behind (c ∷ s) b = ground (arith, b)

module _ (cwd : Text) (matches : Text → Text → Bool) where
  matched-at_or_below :
      (path rest : Text)
      → IsBehind rest
      → matched cwd matches (path ++ rest) (at_or_below path) ≡ true
  unfolding matched
  matched-at_or_below path rest b =
      rw (has_prefix-append path rest, drop-append path rest) (behind rest b)

  -- A path that was guarded stays so when another pattern is added.
  pub is_protected-protect :
      (path pattern : Text) (p : DeleteProtection)
      → is_protected cwd matches path p ≡ true
      → is_protected cwd matches path (protect cwd matches pattern p) ≡ true
  unfolding is_protected protect
  is_protected-protect path pattern p h =
      any-append p.compiled (compile cwd matches pattern ∷ [])
        (matched cwd matches (abspath cwd path))
      ∙ rw h refl

  compile-plain :
      (pattern : Text)
      → has_prefix (codes "re:") pattern ≡ false
      → ends_in_slash pattern ≡ false
      → compile cwd matches pattern ≡ at_or_below (abspath cwd pattern)
  unfolding compile
  compile-plain pattern r s = rw (r, s) refl

  -- A pattern that is no regular expression and does not end in a slash covers every path whose absolute
  -- form is that of the pattern, or goes on behind it with a slash.
  pub is_protected-plain :
      (pattern path rest : Text) (p : DeleteProtection)
      → has_prefix (codes "re:") pattern ≡ false
      → ends_in_slash pattern ≡ false
      → abspath cwd path ≡ abspath cwd pattern ++ rest
      → IsBehind rest
      → is_protected cwd matches path (protect cwd matches pattern p) ≡ true
  unfolding is_protected protect
  is_protected-plain pattern path rest p r s e b =
      any-append p.compiled (compile cwd matches pattern ∷ [])
        (matched cwd matches (abspath cwd path))
      ∙ rw (compile-plain pattern r s, e, matched-at_or_below (abspath cwd pattern) rest b)
          (or_true (any p.compiled (matched cwd matches (abspath cwd pattern ++ rest))))

  abspath-detour :
      (a x b : Text)
      → IsName x
      → 2 ≤ length a
      → abspath cwd (detour (b'/' ∷ a) x b) ≡ abspath cwd (b'/' ∷ (a ++ b'/' ∷ b))
  unfolding abspath
  abspath-detour a x b v h = normpath-detour (b'/' ∷ a) x b v (omega (arith, h))

  -- A way into a directory and out of it again, inside an absolute path, changes no answer.
  pub is_protected-detour :
      (a x b : Text) (p : DeleteProtection)
      → IsName x
      → 2 ≤ length a
      → is_protected cwd matches (detour (b'/' ∷ a) x b) p
        ≡ is_protected cwd matches (b'/' ∷ (a ++ b'/' ∷ b)) p
  unfolding is_protected
  is_protected-detour a x b p v h =
      ap (λ q. any p.compiled (matched cwd matches q)) (abspath-detour a x b v h)

  -- The guarded path is longer than this one; a regular expression does not match it.
  abbrev pub IsBeyond : Text → Guard → Type 0
  IsBeyond path (regex r) = matches r path ≡ false
  IsBeyond path (below prefix) = length path < length prefix
  IsBeyond path (at_or_below guarded) = length path < length guarded

  matched-IsBeyond :
      (path : Text) (g : Guard) → IsBeyond path g → matched cwd matches path g ≡ false
  unfolding matched
  matched-IsBeyond path (regex r) h = h
  matched-IsBeyond path (below prefix) h = elim (Bool-cases (has_prefix prefix path)) [
    | inl q ↦ absurd (omega (arith, h, length-has_prefix prefix path q))
    | inr q ↦ q
  ]
  matched-IsBeyond path (at_or_below guarded) h = elim (Bool-cases (has_prefix guarded path)) [
    | inl q ↦ absurd (omega (arith, h, length-has_prefix guarded path q))
    | inr q ↦ rw q refl
  ]

  any-IsBeyond :
      (path : Text) (gs : List Guard)
      → All (IsBeyond path) gs
      → any gs (matched cwd matches path) ≡ false
  any-IsBeyond path [] all = refl
  any-IsBeyond path (g ∷ gs) all = rw (matched-IsBeyond path g all.0) (any-IsBeyond path gs all.1)

  -- A path that is shorter than every guarded path is not covered, also when it is a directory that
  -- guarded paths lie in.
  pub is_protected-IsBeyond :
      (path : Text) (p : DeleteProtection)
      → All (IsBeyond (abspath cwd path)) p.compiled
      → is_protected cwd matches path p ≡ false
  unfolding is_protected
  is_protected-IsBeyond path p all = any-IsBeyond (abspath cwd path) p.compiled all
