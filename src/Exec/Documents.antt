-- ===== src/Exec/Documents.antt =====
-- The documents and exit codes of buster/exec.py for the calls that its grammar takes.
use mathlib.Core.Bool.{true≢false}
use aioperator.Prelude.{
  ◌≡◌, refl, sym, ◌∙◌, ◌≤◌, Bool, Bool-cases, inl, inr, true, false, ◌&&◌, Option, none, some, List,
  [], ◌∷◌, String, str_eq, if◌then◌else◌, length, arith, first, Option-cases, ◌==◌,
}
use aioperator.Dict.{get, put, string_eq}
use aioperator.Dict.Laws.{get-put, get-put_self}
use aioperator.Exec.{
  Outcome, answers, runtime_error, exception, Daemon, Run, is_in, service_verbs, read_views,
  is_valid_service_name, Response, ServiceRow, Status, Touch, resolves_install, connects, Document,
  text, flag, null, emits, fails,
}
use aioperator.Exec.Views.{doc_present, present_doc, is_running}
use aioperator.Exec.Entry.{
  exec_main, run_service, run_read, run_plain, ctl_service, control, conclude, report, connected,
  deliver,
}
use aioperator.Exec.Grammar.{
  is_plain, valid_call, Family, family, of_service, of_read, of_plain, of_none,
}

valid_argument :
    (verb argument : String)
    → is_in verb service_verbs ≡ true
    → valid_call (verb ∷ argument ∷ []) ≡ true
    → str_eq verb "read" ≡ false
    → is_valid_service_name argument ≡ true
valid_argument verb argument h v r = ground arith

valid_view :
    (verb argument : String)
    → is_in verb service_verbs ≡ false
    → valid_call (verb ∷ argument ∷ []) ≡ true
    → is_in argument read_views ≡ true
valid_view verb argument h v = ground arith

module _ {J : Type 0} where
  -- One document was printed, nothing escaped, and the code is 0 or 1.
  pub record IsServed (r : Run J) : Type 0 where
    pub one_document : length r.documents ≡ 1
    pub returned : r.escaped ≡ none
    pub code_bound : r.exit_code ≤ 1

  -- The documents say `ok` exactly when the code is 0.
  pub record IsHonest (r : Run J) : Type 0 where
    pub says :
        get "ok" (elim r.documents [ [] ↦ [] | doc ∷ _ ↦ doc ]) ≡ some (flag (r.exit_code == 0))

  deliver-IsServed :
      (verb : String) (touched : List Touch) (o : Outcome (Document J)) (more : List Touch)
      → IsServed (deliver verb touched (o, more))
  unfolding deliver
  deliver-IsServed verb touched (answers doc) more = record {
    one_document = refl;
    returned = refl;
    code_bound = omega arith;
  }
  deliver-IsServed verb touched (runtime_error t m) more = record {
    one_document = refl;
    returned = refl;
    code_bound = omega arith;
  }
  deliver-IsServed verb touched (exception t m) more = record {
    one_document = refl;
    returned = refl;
    code_bound = omega arith;
  }

  record IsControlled (r : Run J) : Type 0 where
    pub served : IsServed r
    pub honest : IsHonest r

  fails-IsControlled :
      (verb message : String) (touched : List Touch) → IsControlled (fails verb message touched)
  unfolding get
  fails-IsControlled verb message touched = record {
    served = record { one_document = refl; returned = refl; code_bound = omega arith };
    honest = record { says = refl };
  }

  emits-IsControlled :
      (doc : Document J) (touched : List Touch)
      → get "ok" doc ≡ some (flag true)
      → IsControlled (emits 0 doc touched)
  emits-IsControlled doc touched h = record {
    served = record { one_document = refl; returned = refl; code_bound = omega arith };
    honest = record { says = h };
  }

  conclude-IsControlled :
      (verb name : String) (o : Outcome (Response J)) (touched : List Touch)
      → IsControlled (conclude verb name o touched)
  unfolding conclude
  conclude-IsControlled verb name (runtime_error t m) touched = fails-IsControlled _ _ _
  conclude-IsControlled verb name (exception t m) touched = fails-IsControlled _ _ _
  conclude-IsControlled verb name (answers r) touched = elim (Bool-cases r.ok) [
    | inl q ↦ rw q (
        emits-IsControlled _ _ (
          rw
            (get-put "name" "ok" (text name) (put "ok" (flag true) (put "verb" (text verb) r.body)))
            (get-put_self "ok" (flag true) (put "verb" (text verb) r.body))))
    | inr q ↦ rw q (fails-IsControlled _ _ _)
  ]

  report-IsControlled :
      (verb name : String) (o : Outcome (List (ServiceRow J))) (touched : List Touch)
      → IsControlled (report verb name o touched)
  unfolding report get
  report-IsControlled verb name (runtime_error t m) touched = fails-IsControlled _ _ _
  report-IsControlled verb name (exception t m) touched = fails-IsControlled _ _ _
  report-IsControlled verb name (answers rows) touched =
      elim (Option-cases (first (λ r. str_eq r.name name) rows)) [
        | inl q ↦ rw (q, report) (fails-IsControlled _ _ _)
        | inr (row, q) ↦ rw (q, report) (emits-IsControlled _ _ refl)
      ]

  control-IsControlled :
      (verb name : String) (d : Daemon J) (touched : List Touch)
      → IsControlled (control verb name d touched)
  unfolding control
  control-IsControlled verb name d touched = elim (Bool-cases (str_eq verb "service-status")) [
    | inl q ↦ rw q (report-IsControlled verb name d.services _)
    | inr q ↦ rw q (conclude-IsControlled verb name (d.service_op _ name) _)
  ]

  ctl_service-IsControlled :
      (verb name install : String) (online : Bool) (d : Daemon J)
      → d.install ≡ answers install
      → d.is_online ≡ answers online
      → IsControlled (ctl_service verb name d)
  unfolding ctl_service connected
  ctl_service-IsControlled verb name install true d i o =
      rw (i, o) (control-IsControlled verb name d (resolves_install ∷ connects ∷ []))
  ctl_service-IsControlled verb name install false d i o = rw (i, o) (fails-IsControlled _ _ _)

  -- When the installation is found and the daemon can be asked whether it is online, a service verb
  -- with a service name prints a document that says `ok` exactly when the exit code is 0.
  pub exec_main-IsHonest :
      (repr : Option String → String) (repr_view verb name install : String) (online : Bool)
      (d : Daemon J)
      → is_in verb service_verbs ≡ true
      → is_valid_service_name name ≡ true
      → d.install ≡ answers install
      → d.is_online ≡ answers online
      → IsHonest (exec_main repr repr_view (verb ∷ name ∷ []) d)
  unfolding exec_main run_service
  exec_main-IsHonest repr repr_view verb name install online d v n i o =
      rw (v, n) (ctl_service-IsControlled verb name install online d i o).honest

  run_plain-IsServed :
      (repr : Option String → String) (verb install : String) (online : Bool) (d : Daemon J)
      → d.install ≡ answers install
      → d.is_online ≡ answers online
      → IsServed (run_plain repr verb [] d)
  unfolding run_plain connected
  run_plain-IsServed repr verb install online d i o = rw (i, o) (deliver-IsServed verb _ _ _)

  run_read-IsServed :
      (repr_view verb view install : String) (online : Bool) (d : Daemon J)
      → is_in view read_views ≡ true
      → d.install ≡ answers install
      → d.is_online ≡ answers online
      → IsServed (run_read repr_view verb (view ∷ []) d)
  unfolding run_read connected
  run_read-IsServed repr_view verb view install online d v i o =
      rw (v, i, o) (deliver-IsServed verb _ _ _)

  serve_plain :
      (repr : Option String → String) (repr_view verb install : String) (online : Bool)
      (d : Daemon J)
      → is_plain verb ≡ true
      → d.install ≡ answers install
      → d.is_online ≡ answers online
      → Family verb
      → IsServed (exec_main repr repr_view (verb ∷ []) d)
  unfolding exec_main
  serve_plain repr repr_view verb install online d v i o (of_service h p r) =
      absurd (true≢false (sym v ∙ p))
  serve_plain repr repr_view verb install online d v i o (of_read h p r) =
      absurd (true≢false (sym v ∙ p))
  serve_plain repr repr_view verb install online d v i o (of_plain h p r) =
      rw (h, r, p) (run_plain-IsServed repr verb install online d i o)
  serve_plain repr repr_view verb install online d v i o (of_none h p r) =
      absurd (true≢false (sym v ∙ p))

  serve :
      (repr : Option String → String) (repr_view verb argument install : String) (online : Bool)
      (d : Daemon J)
      → valid_call (verb ∷ argument ∷ []) ≡ true
      → d.install ≡ answers install
      → d.is_online ≡ answers online
      → Family verb
      → IsServed (exec_main repr repr_view (verb ∷ argument ∷ []) d)
  unfolding exec_main run_service
  serve repr repr_view verb argument install online d v i o (of_service h p r) = rw h (
      rw (valid_argument verb argument h v r)
        (ctl_service-IsControlled verb argument install online d i o).served)
  serve repr repr_view verb argument install online d v i o (of_read h p r) =
      rw (h, r)
        (run_read-IsServed repr_view verb argument install online d (valid_view verb argument h v) i
          o)
  serve repr repr_view verb argument install online d v i o (of_plain h p r) = absurd (ground arith)
  serve repr repr_view verb argument install online d v i o (of_none h p r) = absurd (ground arith)

  -- When the installation is found and the daemon can be asked whether it is online, a call of the
  -- grammar prints one document, raises no exception, and ends with code 0 or 1.
  pub exec_main-IsServed :
      (repr : Option String → String) (repr_view : String) (args : List String) (install : String)
      (online : Bool) (d : Daemon J)
      → valid_call args ≡ true
      → d.install ≡ answers install
      → d.is_online ≡ answers online
      → IsServed (exec_main repr repr_view args d)
  exec_main-IsServed repr repr_view [] install online d v i o = absurd (ground arith)
  exec_main-IsServed repr repr_view (verb ∷ []) install online d v i o =
      serve_plain repr repr_view verb install online d v i o (family verb)
  exec_main-IsServed repr repr_view (verb ∷ argument ∷ []) install online d v i o =
      serve repr repr_view verb argument install online d v i o (family verb)
  exec_main-IsServed repr repr_view (verb ∷ argument ∷ more ∷ rest) install online d v i o =
      absurd (ground arith)

  -- Where the status call of the daemon answers, `present` says that the interface is ready exactly
  -- when the daemon is online and answers that it is running; the address that it names is then the
  -- local one, and null otherwise.
  pub doc_present_lem :
      (repr : Option String → String) (install : String) (d : Daemon J) (s : Status J)
      (online : Bool)
      → d.status ≡ answers s
      → let ready = online && is_running s in
        (doc : Document J) × ((doc_present repr install d online).0 ≡ answers doc)
        × (get "ready" doc ≡ some (flag ready))
        × (get "url" doc ≡ some (if ready then text "http://127.0.0.1:8468" else null))
  unfolding doc_present present_doc get put
  doc_present_lem repr install d s false e = (_, refl, refl, refl)
  doc_present_lem repr install d s true e = elim (Bool-cases (is_running s)) [
    | inl q ↦ rw (e, q) (_, refl, refl, refl)
    | inr q ↦ rw (e, q) (_, refl, refl, refl)
  ]
