-- ===== src/Runtime/Rpc/Tests.antt =====
-- Rounds of the loop, and the theorems about them.
use aioperator.Prelude.{
  ℕ, ◌+◌, if◌then◌else◌, ◌≡◌, refl, Bool, true, false, none, some, [], ◌∷◌, ◌++◌, String, is_some,
  ◌==◌, not, str_eq, length,
}
use aioperator.Dict.{get, put, string_eq}
use aioperator.Runtime.Rpc.{
  text, Message, InFile, unreadable, Server, Outcome, answers, Surface, rpc, dispatch, process_file,
  process_files, process_pending, send, poll, no_object,
}
use aioperator.Runtime.Rpc.Served.{IsFor, process_files-replies, request_file}

program : Unit {0}
unfolding get put rpc dispatch process_file process_files process_pending send poll
program = tt

-- Numbers are the JSON values that are no texts.
abbrev truthy : ℕ → Bool
truthy n = not (n == 0)

abbrev print : ℕ → String
print n = "0"

abbrev can_write : String → Bool
can_write name = not (str_eq name "a/b")

-- A kernel that counts the jobs it cancels.
abbrev cancel : Message ℕ → ℕ → Outcome ℕ ℕ
cancel m n = answers (n + 1) true (get "id" m) none

abbrev surface : Surface ℕ ℕ
surface op = if str_eq op "jobs_cancel" then some cancel else none

abbrev server : Server ℕ ℕ
server = record { kernel = 0; is_running = true; inbox = []; outbox = [] }

abbrev broken : Bool → InFile ℕ
broken old = record { name = "b"; is_json = true; content = unreadable; is_old = old }

abbrev odd : InFile ℕ
odd = record { name = "o"; is_json = true; content = no_object; is_old = false }

-- The server behind a round.
abbrev served : Server ℕ ℕ → Server ℕ ℕ
unfolding program
served s = (process_pending truthy print can_write surface s).1

abbrev cancelled : Server ℕ ℕ
unfolding program
cancelled = served (send "jobs_cancel" "r1" (("id", text "job-7") ∷ []) server)

-- The reply to a cancellation lies under the id of the job, and its client finds none.
run_tests :
    (cancelled.kernel ≡ 1)
    × (is_some (poll "r1" cancelled).0 ≡ false)
    × (is_some (poll "job-7" cancelled).0 ≡ true)
    × ((served (send "shutdown" "r2" [] server)).is_running ≡ false)
    × (is_some (poll "r3" (served (send "what" "r3" [] server))).0 ≡ true)
unfolding program
run_tests = (refl, refl, refl, refl, refl)

-- A value that is no object, or a name that is no file's, ends the loop; the files from there on stay.
end_tests :
    ((process_pending truthy print can_write surface
        (send "what" "r3" [] (record server { inbox = odd ∷ [] }))).0
      ≡ true)
    × (length (served (send "what" "r3" [] (record server { inbox = odd ∷ [] }))).inbox ≡ 2)
    × ((process_pending truthy print can_write surface (send "what" "a/b" [] server)).0 ≡ true)
    × (length (served (record server { inbox = broken true ∷ broken false ∷ [] })).inbox ≡ 1)
unfolding program
end_tests = (refl, refl, refl, refl)

process_files-replies_example : IsFor truthy print "r1" (
    get "r1"
      (process_files truthy print can_write surface
        (broken true ∷ [] ++ request_file "jobs_cancel" "r1" (("job", text "7") ∷ []) ∷ odd ∷ [])
        server).server.outbox)
unfolding program
process_files-replies_example =
    process_files-replies truthy print can_write surface (broken true ∷ []) (odd ∷ []) server
      "jobs_cancel" "r1" (("job", text "7") ∷ []) refl refl refl refl
