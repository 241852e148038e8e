-- ===== src/Intelligence/Rhythm.antt =====
-- buster/intelligence/rhythm.py: the state machine of the cognitive mode. Times are numbers, `now` is
-- the time of the call; `emitted` lists the modes that the event bus was told of.
pub mod Modes
mod Tests
use aioperator.Prelude.{
  ℕ, ◌+◌, Bool, true, false, not, ◌&&◌, ◌||◌, Option, none, some, List, [], ◌∷◌, ◌++◌, String,
  str_eq, if◌then◌else◌, ltb, leb, ◌==◌,
}

pub data Mode : Type 0 where
  active background idle reflection maintenance constrained degraded recovery sleep : Mode

pub record CognitiveRhythm : Type 0 where
  pub idle_time : ℕ
  pub maintenance_interval : ℕ
  pub reflection_interval : ℕ
  pub current : Mode
  pub last_maintenance : ℕ
  pub last_reflection : ℕ
  pub last_recovery : ℕ
  pub has_router : Bool
  pub emitted : List Mode

-- `nervous_state`, with the defaults of a missing key put in.
pub record NervousState : Type 0 where
  pub activity : String
  pub overall : String

abbrev pub code_of : Mode → ℕ
code_of active = 0
code_of background = 1
code_of idle = 2
code_of reflection = 3
code_of maintenance = 4
code_of constrained = 5
code_of degraded = 6
code_of recovery = 7
code_of sleep = 8

abbrev pub same_mode : Mode → Mode → Bool
same_mode a b = code_of a == code_of b

unfoldable pub init :
    (now idle_time maintenance_interval reflection_interval : ℕ) (router : Bool) → CognitiveRhythm
init now idle_time maintenance_interval reflection_interval router = record {
  idle_time = idle_time;
  maintenance_interval = maintenance_interval;
  reflection_interval = reflection_interval;
  current = idle;
  last_maintenance = now;
  last_reflection = now;
  last_recovery = 0;
  has_router = router;
  emitted = [];
}

unfoldable pub maintenance_due : ℕ → CognitiveRhythm → Bool
maintenance_due now r = leb (r.last_maintenance + r.maintenance_interval) now

unfoldable pub reflection_due : ℕ → CognitiveRhythm → Bool
reflection_due now r = leb (r.last_reflection + r.reflection_interval) now

-- The first `if` of `transition`.
unfoldable pub target : ℕ → NervousState → (pending_goals active_jobs : ℕ) → CognitiveRhythm → Mode
target now s pending_goals active_jobs r =
    if str_eq s.overall "critical"
    then constrained
    else if str_eq s.overall "attention"
    then degraded
    else if str_eq s.activity "active" || ltb 0 pending_goals
    then active
    else if ltb 0 active_jobs
    then background
    else if str_eq s.activity "sleep"
    then sleep
    else if maintenance_due now r
    then maintenance
    else if reflection_due now r
    then reflection
    else idle

-- The second `if`: work puts off the upkeep.
unfoldable pub put_off : ℕ → Mode → CognitiveRhythm → CognitiveRhythm
put_off now m r =
    if same_mode m active || same_mode m background
    then record r { last_maintenance = now; last_reflection = now }
    else r

-- The last `if`, `_emit`, and the assignment.
unfoldable pub enter : Mode → CognitiveRhythm → CognitiveRhythm
enter m r = record r {
  current = m;
  emitted = if not (same_mode m r.current) && r.has_router then r.emitted ++ m ∷ [] else r.emitted;
}

-- The third `if`: behind resource pressure comes a recovery, at most one a minute.
unfoldable pub leave : ℕ → Mode → CognitiveRhythm → CognitiveRhythm
unfolding enter
leave now m r =
    if not (same_mode m constrained) && same_mode r.current constrained
    then enter (if ltb now (r.last_recovery + 60) then idle else recovery)
        (record r { last_recovery = now })
    else enter m r

unfoldable pub transition :
    ℕ → NervousState → (pending_goals active_jobs : ℕ) → CognitiveRhythm → CognitiveRhythm
unfolding put_off leave target
transition now s pending_goals active_jobs r =
    let m = target now s pending_goals active_jobs r in leave now m (put_off now m r)

unfoldable pub should_reflect : CognitiveRhythm → Bool
should_reflect r =
    same_mode r.current reflection || same_mode r.current idle || same_mode r.current active

unfoldable pub should_consolidate : CognitiveRhythm → Bool
should_consolidate r =
    same_mode r.current maintenance || same_mode r.current recovery || same_mode r.current idle

unfoldable pub should_maintain : CognitiveRhythm → Bool
should_maintain r = same_mode r.current maintenance
