-- ===== src/Agents/Planner/Offline.antt =====
-- buster/agents/planner.py: the run of a planner that has no provider.
use aioperator.Prelude.{
  ℕ, zero, suc, ◌≡◌, true, false, Option, none, some, List, [], ◌∷◌, ◌++◌, String, codes,
}
use aioperator.Prelude.Strings.{Text}
use aioperator.Agents.{result, Host, ActionResult}
use aioperator.Agents.Replies.{
  assistant, user, Decoded, object, search, fallback_plan_step, is_finished, observation,
}
use aioperator.Agents.Planner.{Entry, finished, acted, Loop}

-- A text that is one step as it stands and does not count as the end.
abbrev IsStep : String → Type 0
IsStep t = (search (codes t) ≡ some (codes t)) × (is_finished (codes t) ≡ false)

abbrev pub action_of : Entry → Option String
action_of finished = none
action_of (acted action success) = some action

abbrev pub repeat {ℓ} : {A : Type ℓ} → ℕ → A → List A
repeat zero x = []
repeat (suc n) x = x ∷ repeat n x

module _ {K P : Type 0} (host : Host K P) (decode : Text → Decoded P) (goal action : String)
    (params : P)
    (reads : decode (codes (fallback_plan_step (codes goal))) ≡ object (some action) params)
    (known : (k : K) → host.knows action k ≡ true) (answer : K → ActionResult) (after : K → K)
    (calls : (k : K) → host.call action params k ≡ (result (answer k), after k)) where
  abbrev stepped : Loop K → Loop K
  stepped s = record {
    transcript =
        (s.transcript ++ assistant (codes (fallback_plan_step (codes goal))) ∷ [])
        ++ user (observation (answer s.kernel)) ∷ [];
    history = s.history ++ acted action (answer s.kernel).success ∷ [];
    executed = true;
    kernel = after s.kernel;
  }
