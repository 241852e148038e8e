-- ===== src/Agents/Orchestrator/Tests.antt =====
-- Runs of the orchestrator, and the theorem about them.
use aioperator.Prelude.{
  ℕ, ◌≡◌, refl, true, false, not, Option, none, some, List, [], ◌∷◌, String, codes, str_eq,
  if◌then◌else◌, inr,
}
use aioperator.Prelude.Strings.{Text, same_text}
use aioperator.Agents.{result, raised, Host, Answer, content}
use aioperator.Agents.Orchestrator.{
  odd, row, Rows, unreadable, rows, cleaned, removesuffix, plan_rows, parse_plan, make_plan,
  plan_of, execute, run_plan, run, fallback,
}

program : Unit {0}
unfolding same_text cleaned removesuffix plan_rows parse_plan make_plan plan_of execute run_plan run
program = tt

-- Every action but `rm` is known, and a call of `boom` raises.
abbrev host : Host (List String) ℕ
host = record {
  knows = λ a k. not (str_eq a "rm");
  call = λ a p k.
      if str_eq a "boom"
      then (raised "bad", k)
      else (result (record { success = true; dumped = [] }), a ∷ k);
  memory = λ k. none;
  set_memory = λ m k. k;
}

abbrev plan : Rows ℕ
plan = rows (row (some "fs.list") 0 "" ∷ row (some "rm") 0 "" ∷ row (some "time.now") 0 "" ∷ [])

abbrev decode : Text → Rows ℕ
unfolding same_text
decode t =
    if same_text t (codes "[1]")
    then rows (odd "no get" ∷ [])
    else if same_text t (codes "p")
    then plan
    else unreadable

abbrev says : String → Option Answer
says s = some (content (some (codes s)))

run_tests :
    (cleaned (codes " ```json\n[1]\n``` ") ≡ codes "[1]")
    × ((run host true 0 decode (says "p") "g" 5 []).1 ≡ "time.now" ∷ "fs.list" ∷ [])
    × ((run host true 0 decode (says "```[1]```") "g" 5 []).0.error ≡ some "no get")
    × ((run host true 0 decode none "g" 5 []).1 ≡ "android.info" ∷ [])
    × (parse_plan {P = ℕ} 0 (λ a. false) "g" plan ≡ inr (fallback 0 "fallback for '{goal}'"))
unfolding program
run_tests = (refl, refl, refl, refl, refl)
