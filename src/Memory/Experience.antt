-- ===== src/Memory/Experience.antt =====
-- buster/memory/experience.py: the capped file of experiences. Times are numbers; `none` of `recall` and
-- `stats` is the error that `json.loads` raises for a line that it cannot read.
pub mod Capped
mod Tests
use aioperator.Prelude.{
  ℕ, ◌+◌, Bool, Option, none, some, List, [], ◌∷◌, ◌++◌, map, String, str_eq, if◌then◌else◌, leb,
  ltb, ◌==◌, length, keep, take, last_n, get_or, sort_by,
}
use aioperator.Prelude.Strings.{Text}
use aioperator.Dict.{text_eq, Dict, get, put}
use aioperator.Memory.Lines.{Line, row, all_rows, lines_of}

-- The keys that the code reads of an entry; a missing one is `none`.
pub record Experience : Type 0 where
  pub ts : ℕ
  pub status : Option String
  pub target : Option Text
  pub error : Option Text
  pub agent : Option String

pub record ExperienceMemory : Type 0 where
  pub file : Option (List (Line Experience))
  pub capacity : ℕ

-- `_lines`
unfoldable pub lines : ExperienceMemory → List (Line Experience)
lines m = lines_of m.file

-- `_trim`
unfoldable pub trim : ExperienceMemory → ExperienceMemory
unfolding lines
trim m =
    if leb (length (lines m)) m.capacity
    then m
    else record m { file = some (last_n m.capacity (lines m)) }

-- `record`: the entry is stored with the time, unless it has one.
unfoldable pub store : Experience → ExperienceMemory → ExperienceMemory
unfolding trim
store e m = trim (record m { file = some (lines m ++ row e ∷ []) })

-- `entries[-limit:]`, where a limit is given.
abbrev pub limited : Option ℕ → Option (List Experience) → Option (List Experience)
limited limit none = none
limited none (some es) = some es
limited (some n) (some es) = some (last_n n es)

unfoldable pub recall : Option ℕ → ExperienceMemory → Option (List Experience)
unfolding lines
recall limit m = limited limit (all_rows (lines m))

unfoldable pub count : ExperienceMemory → ℕ
unfolding lines
count m = length (lines m)

unfoldable pub clear : ExperienceMemory → ExperienceMemory
clear m = record m { file = none }

-- `_bucket`
abbrev pub bucket : Option Text → Text
bucket value = take 60 (get_or value [])

-- `Counter`
unfoldable pub count_each : List Text → Dict Text ℕ → Dict Text ℕ
count_each [] counts = counts
count_each (t ∷ ts) counts = count_each ts (put t (get_or (get t counts) 0 + 1) counts)

-- `counts.most_common(n)`: the most frequent first, among equals the one seen first.
unfoldable pub most_common : ℕ → Dict Text ℕ → List (Text × ℕ)
most_common n counts = take n (sort_by (λ a b. ltb b.1 a.1) counts)

abbrev pub is_status : String → Option String → Bool
is_status s none = Bool.false
is_status s (some t) = str_eq t s

abbrev pub has_status : String → Experience → Bool
has_status s e = is_status s e.status

pub record Stats : Type 0 where
  pub total : ℕ
  pub done : ℕ
  pub failed : ℕ
  pub success_rate : Option (ℕ × ℕ)
  pub top_goals : List (Text × ℕ)
  pub top_failures : List (Text × ℕ)

-- `success_rate` is the pair of the numbers whose quotient the code rounds.
unfoldable pub stats_of : List Experience → Stats
unfolding count_each most_common
stats_of es =
    let total = length es in
    let done = length (keep (has_status "done") es) in
    record {
      total = total;
      done = done;
      failed = length (keep (has_status "failed") es);
      success_rate = if total == 0 then none else some (done, total);
      top_goals = most_common 8 (count_each (map (λ e. bucket e.target) es) []);
      top_failures =
          most_common 8 (count_each (map (λ e. bucket e.error) (keep (has_status "failed") es)) []);
    }

abbrev pub summarise : Option (List Experience) → Option Stats
unfolding stats_of
summarise none = none
summarise (some es) = some (stats_of es)

unfoldable pub stats : ExperienceMemory → Option Stats
unfolding recall
stats m = summarise (recall none m)
