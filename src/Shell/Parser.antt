-- ===== src/Shell/Parser.antt =====
-- buster/shell/parser.py: tokens, quotes and options of a command line. A text is the list of its code
-- points. `is_space` is `str.isspace` on one of them, and `coerce` the reading of an option's value.
pub mod Quoted
mod Tests
use aioperator.Prelude.{
  ℕ, zero, suc, ◌+◌, ◌-◌, Bool, true, false, not, ◌&&◌, ◌||◌, Option, none, some, List, [], ◌∷◌,
  ◌++◌, map, if◌then◌else◌, length, ◌==◌,
}

abbrev pub Text : Type 0
Text = List ℕ

abbrev pub is_quote : ℕ → Bool
is_quote c = c == b'"' || c == b'\''

-- `str ==`
unfoldable pub same_text : Text → Text → Bool
same_text [] [] = true
same_text [] (d ∷ t) = false
same_text (c ∷ s) [] = false
same_text (c ∷ s) (d ∷ t) = c == d && same_text s t

abbrev pub ends_with : ℕ → Text → Bool
ends_with q [] = false
ends_with q (c ∷ []) = c == q
ends_with q (c ∷ d ∷ s) = ends_with q (d ∷ s)

abbrev pub starts_with : ℕ → Text → Bool
starts_with q [] = false
starts_with q (c ∷ s) = c == q

-- `s[:-1]`
abbrev pub without_last : Text → Text
without_last [] = []
without_last (c ∷ []) = []
without_last (c ∷ d ∷ s) = c ∷ without_last (d ∷ s)

-- `s.partition(c)` where `c` is in `s`: what stands before and behind it.
unfoldable pub partition : ℕ → Text → Option (Text × Text)
partition c [] = none
partition c (d ∷ s) =
    let rest = partition c s in
    if d == c then some ([], s) else elim rest [ none ↦ none | some (a, b) ↦ some (d ∷ a, b) ]

abbrev pub contains : ℕ → Text → Bool
contains q [] = false
contains q (c ∷ s) = c == q || contains q s

-- The loop over the two quote characters in `strip_outer_quotes`.
unfoldable pub strip_assigned : List ℕ → Text → Text
unfolding partition
strip_assigned [] token = token
strip_assigned (q ∷ quotes) token =
    let rest = strip_assigned quotes token in
    if contains q token
    then elim (partition b'=' token) [
      | none ↦ rest
      | some (key, value) ↦
          if starts_with q value && ends_with q value
          then key ++ b'=' ∷ without_last (elim value [ [] ↦ [] | _ ∷ v ↦ v ])
          else rest
    ]
    else rest

unfoldable pub strip_outer_quotes : Text → Text
unfolding strip_assigned
strip_outer_quotes [] = []
strip_outer_quotes (c ∷ []) = strip_assigned (b'"' ∷ b'\'' ∷ []) (c ∷ [])
strip_outer_quotes (c ∷ d ∷ s) =
    if is_quote c && ends_with c (d ∷ s)
    then without_last (d ∷ s)
    else strip_assigned (b'"' ∷ b'\'' ∷ []) (c ∷ d ∷ s)

pub data Setting (V : Type 0) : Type 0 where
  given : V → Setting V
  switched_on : Setting V

pub record Command (V : Type 0) : Type 0 where
  pub name : Text
  pub args : List Text
  pub options : List (Text × Setting V)

-- `options[key] = value`
unfoldable pub set_option :
    {V : Type 0} → Text → Setting V → List (Text × Setting V) → List (Text × Setting V)
unfolding same_text
set_option key value [] = (key, value) ∷ []
set_option key value ((k, v) ∷ options) =
    if same_text k key then (k, value) ∷ options else (k, v) ∷ set_option key value options

abbrev pub starts_long : Text → Bool
starts_long (c ∷ d ∷ s) = c == b'-' && d == b'-'
starts_long _ = false

-- `token[2:]`
abbrev pub behind_dashes : Text → Text
behind_dashes (c ∷ d ∷ s) = s
behind_dashes _ = []

module _ (is_space : ℕ → Bool) where
  -- `tokens.append("".join(buffer))`, if there is something in the buffer.
  abbrev pub flush : Text → List Text → List Text
  flush [] tokens = tokens
  flush (c ∷ buffer) tokens = tokens ++ (c ∷ buffer) ∷ []

  -- The loop of `tokenize`: the open quote, the buffer and the tokens so far.
  unfoldable pub scan : Text → Option ℕ → Text → List Text → List Text
  scan [] quote buffer tokens = flush buffer tokens
  scan (ch ∷ line) (some q) buffer tokens =
      scan line (if ch == q then none else some q) (buffer ++ ch ∷ []) tokens
  scan (ch ∷ line) none buffer tokens =
      let quoted = scan line (some ch) (buffer ++ ch ∷ []) tokens in
      let parted = scan line none [] (flush buffer tokens) in
      let more = scan line none (buffer ++ ch ∷ []) tokens in
      if is_quote ch then quoted else if is_space ch then parted else more

  unfoldable pub tokenize : Text → List Text
  unfolding scan
  tokenize line = scan line none [] []

  -- `line.strip()`
  abbrev pub strip_left : Text → Text
  strip_left [] = []
  strip_left (c ∷ s) = let rest = strip_left s in if is_space c then rest else c ∷ s

  abbrev pub strip_right : Text → Text
  strip_right [] = []
  strip_right (c ∷ s) =
      let rest = strip_right s in
      elim rest [ [] ↦ (if is_space c then [] else c ∷ []) | d ∷ t ↦ c ∷ d ∷ t ]

module _ {V : Type 0} (coerce : Text → V) where
  -- The loop of `parse` over the tokens behind the name. `none` as the last argument: the token is read
  -- afresh; `some key`: it may be the value of the option `key`.
  unfoldable pub read_tokens :
      List Text → List Text → List (Text × Setting V) → List Text × List (Text × Setting V)
  unfolding partition set_option
  read_tokens [] args options = (args, options)
  read_tokens (token ∷ []) args options =
      if starts_long token && contains b'=' token
      then (
        args,
        elim (partition b'=' (behind_dashes token)) [
          | none ↦ set_option (behind_dashes token) (given (coerce [])) options
          | some (key, value) ↦ set_option key (given (coerce value)) options
        ],
      )
      else if starts_long token
      then (args, set_option (behind_dashes token) switched_on options)
      else if starts_with b'-' token && length token == 2
      then (args, set_option (elim token [ [] ↦ [] | _ ∷ t ↦ t ]) switched_on options)
      else (args ++ token ∷ [], options)
  read_tokens (token ∷ value ∷ tokens) args options =
      let assigned =
        read_tokens (value ∷ tokens) args (elim (partition b'=' (behind_dashes token)) [
          | none ↦ set_option (behind_dashes token) (given (coerce [])) options
          | some (key, text) ↦ set_option key (given (coerce text)) options
        ]) in
      let valued =
        read_tokens tokens args (set_option (behind_dashes token) (given (coerce value)) options) in
      let bare =
        read_tokens (value ∷ tokens) args (set_option (behind_dashes token) switched_on options) in
      let short =
        read_tokens (value ∷ tokens) args
          (set_option (elim token [ [] ↦ [] | _ ∷ t ↦ t ]) switched_on options) in
      let plain = read_tokens (value ∷ tokens) (args ++ token ∷ []) options in
      if starts_long token && contains b'=' token
      then assigned
      else if starts_long token && not (starts_long value)
      then valued
      else if starts_long token
      then bare
      else if starts_with b'-' token && length token == 2
      then short
      else plain

  -- An empty line, or one without tokens, is no command.
  unfoldable pub parse : (is_space : ℕ → Bool) → Text → Option (Command V)
  unfolding tokenize strip_outer_quotes read_tokens
  parse is_space line =
      elim (map strip_outer_quotes
        (tokenize is_space (strip_right is_space (strip_left is_space line)))) [
          | [] ↦ none
          | name ∷ tokens ↦
              let (args, options) = read_tokens tokens [] [] in
              some (record { name = name; args = args; options = options })
        ]
