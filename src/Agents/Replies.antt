-- ===== src/Agents/Replies.antt =====
-- buster/agents/planner.py: what the planner makes of a reply, with the rule-based answers of
-- buster/ai_providers/local.py. `decode` is `json.loads` with the reads of the step.
use aioperator.Prelude.{
  ℕ, ◌-◌, ◌+◌, Bool, true, false, ◌&&◌, ◌||◌, Option, none, some, List, [], ◌∷◌, ◌++◌, String,
  codes, if◌then◌else◌, ◌==◌, leb, take, length,
}
use aioperator.Prelude.Strings.{Text, is_empty, has_prefix}
use aioperator.Agents.{ActionResult, Answer, content, raised}

-- `c.lower()` and `c.upper()`, as far as they have to do with letters of ASCII.
abbrev pub lower_char : ℕ → Text
lower_char c =
    if leb b'A' c && leb c b'Z'
    then (c + 32) ∷ []
    else if c == 8490
    then b'k' ∷ []
    else if c == 304
    then b'i' ∷ 775 ∷ []
    else c ∷ []

abbrev pub lower : Text → Text
lower [] = []
lower (c ∷ s) = lower_char c ++ lower s

abbrev pub upper : Text → Text
upper [] = []
upper (c ∷ s) = (if leb b'a' c && leb c b'z' then c - 32 else c) ∷ upper s

-- `word in s`
abbrev pub occurs : Text → Text → Bool
occurs word [] = is_empty word
occurs word (c ∷ s) = has_prefix word (c ∷ s) || occurs word s

-- The step of `_fallback_plan_step`, as `json.dumps` writes it, by the tests of its conditions.
abbrev pub step_text : (inspects lists times states : Bool) → String
step_text true lists times states =
    "{\"action\": \"android.info\", \"params\": {}, \"reason\": \"local fallback plan step\"}"
step_text false true times states =
    "{\"action\": \"fs.list\", \"params\": {\"path\": \".\"}, \"reason\": \"local fallback plan step\"}"
step_text false false true states =
    "{\"action\": \"time.now\", \"params\": {}, \"reason\": \"local fallback plan step\"}"
step_text false false false true =
    "{\"action\": \"process.list\", \"params\": {}, \"reason\": \"local fallback plan step\"}"
step_text false false false false =
    "{\"action\": \"android.info\", \"params\": {}, \"reason\": \"local fallback plan step\"}"

-- `_fallback_plan_step`
unfoldable pub fallback_plan_step : Text → String
fallback_plan_step goal =
    let has : String → Bool = λ w. occurs (codes w) (lower goal) in
    step_text (has "inspect" || has "environment" || has "device") (has "list" || has "files")
      (has "time") (has "status" || has "kernel")

-- `_is_finished`
unfoldable pub is_finished : Text → Bool
is_finished reply = occurs (codes "DONE") (upper reply)

-- A text up to the last `}`.
abbrev pub to_last_brace : Text → Option Text
to_last_brace [] = none
to_last_brace (c ∷ s) = elim (to_last_brace s) [
  | none ↦ if c == b'}' then some (c ∷ []) else none
  | some t ↦ some (c ∷ t)
]

-- `_ACTION_RE.search`: from the first `{` to the last `}` behind it.
unfoldable pub search : Text → Option Text
search [] = none
search (c ∷ s) = let rest = search s in if c == b'{' then closed (to_last_brace s) else rest
  where
    closed : Option Text → Option Text
    closed none = none
    closed (some t) = some (b'{' ∷ t)

-- The value that a reply holds: none that can be read, or an object with its
-- `action`, where that counts as true, and its `params`; the lookup of a list or an object raises.
pub data Decoded (P : Type 0) : Type 0 where
  unreadable : Decoded P
  unhashable : String → Decoded P
  object : Option String → P → Decoded P

pub data Parsed (P : Type 0) : Type 0 where
  stops : Parsed P
  acts : String → P → Parsed P
  fails : String → Parsed P

pub data AiMessage : Type 0 where
  assistant user : Text → AiMessage
  system : Text → AiMessage

-- `_observation`
unfoldable pub observation : ActionResult → Text
observation r =
    let preview =
      if leb (length r.dumped) 500 then r.dumped else take 500 r.dumped ++ codes "..." in
    codes "action result (success="
    ++ (codes (if r.success then "True" else "False")
        ++ (codes "): " ++ (if is_empty preview then codes "(no data)" else preview)))

module _ {P : Type 0} where
  -- The step of a reply, where it is one of a known action.
  abbrev pub step_of : (String → Bool) → Decoded P → Parsed P
  step_of knows unreadable = stops
  step_of knows (unhashable e) = fails e
  step_of knows (object none params) = stops
  step_of knows (object (some action) params) = if knows action then acts action params else stops

  abbrev pub or_else : Parsed P → Parsed P → Parsed P
  or_else stops other = other
  or_else (acts action params) other = acts action params
  or_else (fails e) other = fails e

  abbrev pub own_step : (Text → Decoded P) → (String → Bool) → Option Text → Parsed P
  own_step decode knows none = stops
  own_step decode knows (some t) = step_of knows (decode t)

  -- `_parse_action`
  unfoldable pub parse_action :
      (Text → Decoded P) → (String → Bool) → (reply goal : Text) (bootstrap : Bool) → Parsed P
  unfolding search fallback_plan_step
  parse_action decode knows reply goal bootstrap = or_else (own_step decode knows (search reply)) (
      if bootstrap then own_step decode knows (search (codes (fallback_plan_step goal))) else stops)

-- `_ask`, on the answer of the provider if there is one.
unfoldable pub ask : Option (List AiMessage → Answer) → List AiMessage → Text → Option Text
ask none transcript goal = some (codes (fallback_plan_step goal))
ask (some complete) transcript goal = answered (complete transcript)
  where
    answered : Answer → Option Text
    answered (content reply) = reply
    answered (raised e) = some (codes (fallback_plan_step goal))
