-- ===== src/Intelligence/Attention.antt =====
-- buster/intelligence/attention.py: the bounded queue of what deserves processing. Scores are in tenths,
-- which the code's floats hold without loss; `lower` is `str.lower`, and `now` is the time of the call.
-- `emitted` are the notes that the event bus was told of.
pub mod Queue
mod Tests
use aioperator.Prelude.{
  ℕ, Bool, true, false, ◌&&◌, ◌||◌, Option, none, some, List, [], ◌∷◌, ◌++◌, String, str_eq,
  if◌then◌else◌, ltb, any, take, drop, length, get_or, ℤ, pos, negsuc, ◌+ℤ◌, ltb_ℤ, sort_by,
}
use aioperator.Prelude.Strings.{Text, same_text, is_empty, split_words, is_in_text}
use aioperator.Intelligence.Rhythm.{Mode, same_mode, sleep, constrained}

pub record AttentionNote : Type 0 where
  pub kind : String
  pub level : String
  pub message : Text
  pub score : ℤ
  pub ts : ℕ
  pub details : List (String × Text)

pub record Attention : Type 0 where
  pub listening : Bool
  pub capacity : ℕ
  pub queue : List AttentionNote
  pub seen_messages : List Text
  pub emitted : List AttentionNote

unfoldable pub init : Bool → ℕ → Attention
init listening capacity = record {
  listening = listening;
  capacity = capacity;
  queue = [];
  seen_messages = [];
  emitted = [];
}

-- The table of the weights, and its default.
abbrev pub weight : String → ℤ
weight level =
    if str_eq level "critical"
    then pos 40
    else if str_eq level "warning"
    then pos 30
    else if str_eq level "info"
    then pos 15
    else if str_eq level "ok"
    then pos 5
    else if str_eq level "debug"
    then pos 1
    else pos 5

abbrev pub is_seen : Text → Attention → Bool
is_seen message a = any a.seen_messages (same_text message)

-- `kind in ROUTINE_KINDS and level in ("info", "ok")`
abbrev pub is_routine : String → String → Bool
is_routine kind level =
    (str_eq kind "host" || str_eq kind "battery") && (str_eq level "info" || str_eq level "ok")

abbrev pub rhythm_penalty : Mode → ℤ
rhythm_penalty m =
    if same_mode m sleep then negsuc 19 else if same_mode m constrained then negsuc 9 else pos 0

-- Whether a goal comes before a note.
abbrev pub before : AttentionNote → AttentionNote → Bool
before a b = ltb_ℤ b.score a.score

module _ (lower : Text → Text) where
  -- The loop over the goals: a word of one of them is in the message.
  unfoldable pub is_relevant : Text → List Text → Bool
  is_relevant message goals =
      any goals (λ goal. any (split_words (lower goal)) (λ word. is_in_text word (lower message)))

  unfoldable pub score :
      (kind level : String) (message : Text) (goals : List Text) (rhythm : Mode) → Attention → ℤ
  unfolding is_relevant
  score kind level message goals rhythm a =
      weight level
      +ℤ (if is_seen message a then pos 0 else pos 20)
      +ℤ (if is_relevant message goals then pos 10 else pos 0)
      +ℤ (if is_routine kind level then negsuc 19 else pos 0)
      +ℤ rhythm_penalty rhythm

-- `_emit`
unfoldable pub emit : AttentionNote → Attention → Attention
emit note a = if a.listening then record a { emitted = a.emitted ++ note ∷ [] } else a

-- The note is queued in its place, and the queue cut to its capacity.
unfoldable pub enqueue : AttentionNote → Attention → Attention
unfolding sort_by
enqueue note a =
    let queue = sort_by before (a.queue ++ note ∷ []) in
    record a {
      queue = if ltb a.capacity (length queue) then take a.capacity queue else queue;
      seen_messages = note.message ∷ a.seen_messages;
    }

-- `note_signal` behind the score.
unfoldable pub surface : AttentionNote → Attention → Option AttentionNote × Attention
unfolding emit enqueue
surface note a =
    if ltb_ℤ note.score (pos 15) then (none, a) else (some note, emit note (enqueue note a))

module _ (lower : Text → Text) where
  unfoldable pub note_signal :
      (now : ℕ) (kind level : String) (message : Text) (goals : List Text) (rhythm : Mode)
      (details : List (String × Text))
      → Attention
      → Option AttentionNote × Attention
  unfolding surface score
  note_signal now kind level message goals rhythm details a =
      surface
        (record {
          kind = kind;
          level = level;
          message = message;
          score = score lower kind level message goals rhythm a;
          ts = now;
          details = details;
        })
        a

  -- `level`, `message` and `details` are the payload's, where it has them.
  unfoldable pub note_event :
      (now : ℕ) (event_type : String) (type_text : Text) (level : Option String)
      (message : Option Text) (details : Option (List (String × Text)))
      → Attention
      → Option AttentionNote × Attention
  unfolding note_signal
  note_event now event_type type_text level message details a =
      let text = get_or message [] in
      note_signal now event_type (get_or level "info") (if is_empty text then type_text else text)
        [] Mode.idle (get_or details []) a

unfoldable pub peek : ℕ → Attention → List AttentionNote
peek limit a = take limit a.queue

unfoldable pub consume : ℕ → Attention → List AttentionNote × Attention
consume limit a = (take limit a.queue, record a { queue = drop limit a.queue })

unfoldable pub clear : Attention → Attention
clear a = record a { queue = [] }
