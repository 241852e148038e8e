-- ===== src/Exec/Entry.antt =====
-- `_ctl_service` and `exec_main` of buster/exec.py. `repr` is `{state!r}` and `repr_view` is `{view!r}`.
use aioperator.Prelude.{
  Bool, true, Option, none, some, List, [], ◌∷◌, ◌++◌, String, str_eq, ◌||◌, if◌then◌else◌, first,
  fstring, get_or,
}
use aioperator.Dict.{put, string_eq}
use aioperator.Exec.{
  Outcome, answers, runtime_error, exception, Daemon, ServiceRow, Response, text, flag, service,
  Document, Run, Touch, resolves_install, connects, asks_services, asks_op, usage, emits, fails,
  escapes, exc_text, offline, is_in, read_verbs, service_verbs, read_views, is_valid_service_name,
}
use aioperator.Exec.Views.{
  doc_ping, doc_status, doc_services, doc_capabilities, doc_health, doc_present, doc_deployment,
  doc_read,
}

module _ {J : Type 0} where
  -- The end of `_ctl_service` for the verbs that start a service.
  unfoldable pub conclude : (verb name : String) → Outcome (Response J) → List Touch → Run J
  conclude verb name (runtime_error t m) touched = fails verb (exc_text t m) touched
  conclude verb name (exception t m) touched = fails verb (exc_text t m) touched
  conclude verb name (answers r) touched =
      if r.ok
      then emits 0 (put "name" (text name) (put "ok" (flag true) (put "verb" (text verb) r.body)))
          touched
      else fails verb (get_or r.error "service op failed") touched

  unfoldable pub report : (verb name : String) → Outcome (List (ServiceRow J)) → List Touch → Run J
  report verb name (runtime_error t m) touched = fails verb (exc_text t m) touched
  report verb name (exception t m) touched = fails verb (exc_text t m) touched
  report verb name (answers rows) touched = elim (first (λ r. str_eq r.name name) rows) [
    | none ↦ fails verb (fstring ("unknown service '" ∷ name ∷ "'" ∷ [])) touched
    | some row ↦
        emits 0
          (("verb", text verb)
            ∷ ("ok", flag true)
            ∷ ("name", text name)
            ∷ ("service", service row)
            ∷ [])
          touched
  ]

  -- `_ctl_service` with a client.
  unfoldable pub control : (verb name : String) → Daemon J → List Touch → Run J
  unfolding conclude report
  control verb name d touched =
      if str_eq verb "service-status"
      then report verb name d.services (touched ++ asks_services ∷ [])
      else (let op : String =
            if str_eq verb "service-start" then "service_start" else "service_restart" in
          conclude verb name (d.service_op op name) (touched ++ asks_op op name ∷ []))

  -- `_install` and `_client` before the body, whose exceptions go to `catch`.
  unfoldable pub connected :
      Daemon J
      → (catch : String → String → List Touch → Run J) → (body : String → Bool → List Touch → Run J)
      → Run J
  connected d catch body = elim d.install [
    | runtime_error t m ↦ catch t m (resolves_install ∷ [])
    | exception t m ↦ catch t m (resolves_install ∷ [])
    | answers install ↦ elim d.is_online [
      | runtime_error t m ↦ catch t m (resolves_install ∷ connects ∷ [])
      | exception t m ↦ catch t m (resolves_install ∷ connects ∷ [])
      | answers online ↦ body install online (resolves_install ∷ connects ∷ [])
    ]
  ]

  -- `_install` and `_client` stand outside the `try`: their exceptions leave `exec_main`.
  unfoldable pub ctl_service : (verb name : String) → Daemon J → Run J
  unfolding control connected
  ctl_service verb name d = connected d escapes (λ install online touched.
      if online then control verb name d touched else fails verb offline touched)

  -- `_emit` of a document, or the `except` of `exec_main`.
  unfoldable pub deliver : (verb : String) → List Touch → Outcome (Document J) × List Touch → Run J
  deliver verb touched (answers doc, more) = emits 0 doc (touched ++ more)
  deliver verb touched (runtime_error t m, more) = fails verb (exc_text t m) (touched ++ more)
  deliver verb touched (exception t m, more) = fails verb (exc_text t m) (touched ++ more)

  -- `_READ_DOCS[verb]`
  unfoldable pub read_doc :
      (repr : Option String → String) (verb install : String)
      → Daemon J
      → Bool
      → Outcome (Document J) × List Touch
  read_doc repr verb install d online =
      if str_eq verb "ping"
      then (answers (doc_ping d online), [])
      else if str_eq verb "status"
      then doc_status d online
      else if str_eq verb "services"
      then doc_services d online
      else if str_eq verb "capabilities"
      then doc_capabilities d online
      else if str_eq verb "health"
      then doc_health d online
      else if str_eq verb "present"
      then doc_present repr install d online
      else doc_deployment d online

  -- The body of a verb behind its lookup, by the arguments that follow it.
  unfoldable pub run_service : (verb : String) (rest : List String) → Daemon J → Run J
  run_service verb (name ∷ []) d =
      if is_valid_service_name name then ctl_service verb name d else usage
  run_service verb _ d = usage

  unfoldable pub run_read : (repr_view verb : String) (rest : List String) → Daemon J → Run J
  unfolding connected
  run_read repr_view verb (view ∷ []) d =
      if is_in view read_views
      then connected d (λ t m touched. fails verb (exc_text t m) touched)
          (λ install online touched. deliver verb touched (doc_read repr_view view d online))
      else usage
  run_read repr_view verb _ d = usage

  unfoldable pub run_plain :
      (repr : Option String → String) (verb : String) (rest : List String) → Daemon J → Run J
  unfolding connected
  run_plain repr verb [] d =
      connected d (λ t m touched. fails verb (exc_text t m) touched)
        (λ install online touched. deliver verb touched (read_doc repr verb install d online))
  run_plain repr verb (_ ∷ _) d = usage

  unfoldable pub exec_main :
      (repr : Option String → String) (repr_view : String) → List String → Daemon J → Run J
  exec_main repr repr_view [] d = usage
  exec_main repr repr_view (verb ∷ rest) d =
      if is_in verb service_verbs
      then run_service verb rest d
      else if str_eq verb "read"
      then run_read repr_view verb rest d
      else if is_in verb read_verbs || is_in verb ("present" ∷ "deployment" ∷ [])
      then run_plain repr verb rest d
      else usage
