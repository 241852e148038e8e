-- ===== src/Exec/Tests.antt =====
-- Calls of `exec_main` at a daemon that runs, and the theorems at them.
use aioperator.Prelude.{ℕ, ◌≡◌, refl, true, false, Option, none, some, List, [], ◌∷◌, String}
use aioperator.Dict.{get, put, string_eq}
use aioperator.Exec.{
  answers, runtime_error, exception, Daemon, Status, Run, usage, resolves_install, connects,
  asks_op, full_match, is_valid_service_name,
}
use aioperator.Exec.Views.{doc_present, present_doc, doc_status, doc_capabilities, doc_read}
use aioperator.Exec.Entry.{
  exec_main, run_service, run_read, run_plain, ctl_service, control, conclude, report, connected,
  deliver, read_doc,
}
use aioperator.Exec.Grammar.{exec_main-refused}

program : Unit {0}
unfolding get put full_match is_valid_service_name doc_present present_doc doc_status
    doc_capabilities doc_read exec_main run_service run_read run_plain ctl_service control conclude
    report connected deliver read_doc
program = tt

abbrev up : Status ℕ
up = record { state = some "running"; detail = 5 }

abbrev daemon : Daemon ℕ
daemon = record {
  version = "1.0";
  install = answers "/buster";
  is_online = answers true;
  heartbeat = none;
  status = answers up;
  services = answers (record { name = "scheduler"; detail = 1 } ∷ []);
  caps = runtime_error "RuntimeRpcError" "refused";
  health = exception "OSError" "disk";
  intel_view = λ view. answers 3;
  service_op = λ op name. answers (record { ok = false; error = some "observed only"; body = [] });
}

abbrev repr : Option String → String
repr none = "None"
repr (some s) = s

abbrev call : List String → Run ℕ
call args = exec_main repr "" args daemon

run_tests :
    ((call ("service-status" ∷ "scheduler" ∷ [])).exit_code ≡ 0)
    × ((call ("service-start" ∷ "scheduler" ∷ [])).touched
        ≡ resolves_install ∷ connects ∷ asks_op "service_start" "scheduler" ∷ [])
    × ((call ("service-start" ∷ "../etc" ∷ [])).exit_code ≡ 2)
    × ((call ("capabilities" ∷ [])).exit_code ≡ 1)
    × ((call ("read" ∷ "goals" ∷ [])).exit_code ≡ 0)
unfolding program
run_tests = (refl, refl, refl, refl, refl)

exec_main-refused_example : call ("present" ∷ "http://example" ∷ []) ≡ usage
exec_main-refused_example =
    exec_main-refused repr "" ("present" ∷ "http://example" ∷ []) daemon refl
