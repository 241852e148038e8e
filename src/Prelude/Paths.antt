-- ===== src/Prelude/Paths.antt =====
-- Python's `os.path` on a POSIX host; a path is the list of its code points.
pub mod Steps
use aioperator.Prelude.{
  ℕ, Bool, true, false, not, ◌&&◌, ◌||◌, List, [], ◌∷◌, ◌++◌, if◌then◌else◌, codes,
}
use aioperator.Prelude.Strings.{Text, is_empty, same_text, has_prefix, split_on, join}

-- The components that are kept, the last one first; `..` takes one back, and nothing at the root.
abbrev pub back : List Text → List Text
back [] = []
back (c ∷ kept) = kept

-- A round of the loop of `normpath` on an absolute path.
abbrev pub step : Text → List Text → List Text
step comp kept =
    if is_empty comp || same_text comp (codes ".")
    then kept
    else if same_text comp (codes "..")
    then back kept
    else comp ∷ kept

unfoldable pub steps : List Text → List Text → List Text
unfolding same_text
steps [] kept = kept
steps (comp ∷ comps) kept = steps comps (step comp kept)

abbrev pub reversed : List Text → List Text → List Text
reversed [] out = out
reversed (c ∷ kept) out = reversed kept (c ∷ out)

-- Two slashes at the front, and not three, stay two.
abbrev pub root : Text → Text
root path =
    if has_prefix (codes "//") path && not (has_prefix (codes "///") path)
    then codes "//"
    else codes "/"

-- `os.path.normpath` of an absolute path.
unfoldable pub normpath : Text → Text
unfolding split_on steps
normpath path = root path ++ join (codes "/") (reversed (steps (split_on b'/' path) []) [])

abbrev pub ends_in_slash : Text → Bool
ends_in_slash [] = false
ends_in_slash (c ∷ []) = has_prefix (codes "/") (c ∷ [])
ends_in_slash (c ∷ d ∷ s) = ends_in_slash (d ∷ s)

-- `os.path.join(a, b)`
abbrev pub join_path : Text → Text → Text
join_path a b =
    if has_prefix (codes "/") b
    then b
    else if is_empty a || ends_in_slash a
    then a ++ b
    else a ++ b'/' ∷ b

-- `os.path.abspath`, where `cwd` is the working directory.
unfoldable pub abspath : Text → Text → Text
unfolding normpath
abspath cwd path = normpath (if has_prefix (codes "/") path then path else join_path cwd path)
