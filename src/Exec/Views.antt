-- ===== src/Exec/Views.antt =====
-- The `_doc_*` functions of buster/exec.py: the documents of the operations that read, and the calls
-- into the runtime that each makes. `online` says whether there is a client.
use aioperator.Prelude.{
  Bool, true, false, not, Option, none, some, List, [], ◌∷◌, if◌then◌else◌, String, str_eq, length,
  fstring, keep,
}
use aioperator.Dict.{put, string_eq}
use aioperator.Exec.{
  Outcome, answers, runtime_error, exception, Daemon, Status, text, flag, null, number, names,
  services, checks, json, Document, Touch, asks_status, asks_services, asks_caps, runs_doctors,
  asks_view, exc_text, offline, read_views, is_in,
}

module _ {J : Type 0} where
  abbrev pub map_answer : {A : Type 0} → (A → Document J) → Outcome A → Outcome (Document J)
  map_answer f (answers a) = answers (f a)
  map_answer f (runtime_error t m) = runtime_error t m
  map_answer f (exception t m) = exception t m

  unfoldable pub doc_ping : Daemon J → Bool → Document J
  doc_ping d online =
      ("verb", text "ping")
      ∷ ("ok", flag true)
      ∷ ("pong", flag true)
      ∷ ("version", text d.version)
      ∷ ("online", flag online)
      ∷ []

  unfoldable pub doc_status : Daemon J → Bool → Outcome (Document J) × List Touch
  doc_status d false = (
    answers (
        ("verb", text "status")
        ∷ ("ok", flag true)
        ∷ ("online", flag false)
        ∷ ("version", text d.version)
        ∷ ("runtime", null)
        ∷ ("heartbeat", elim d.heartbeat [ none ↦ null | some j ↦ json j ])
        ∷ []),
    [],
  )
  doc_status d true = (
    map_answer
        (λ s.
          ("verb", text "status")
          ∷ ("ok", flag true)
          ∷ ("online", flag true)
          ∷ ("version", text d.version)
          ∷ ("runtime", json s.detail)
          ∷ [])
        d.status,
    asks_status ∷ [],
  )

  unfoldable pub doc_services : Daemon J → Bool → Outcome (Document J) × List Touch
  doc_services d false = (
    answers (
        ("verb", text "services")
        ∷ ("ok", flag true)
        ∷ ("online", flag false)
        ∷ ("version", text d.version)
        ∷ ("services", services [])
        ∷ []),
    [],
  )
  doc_services d true = (
    map_answer
        (λ rows.
          ("verb", text "services")
          ∷ ("ok", flag true)
          ∷ ("online", flag true)
          ∷ ("version", text d.version)
          ∷ ("services", services rows)
          ∷ [])
        d.services,
    asks_services ∷ [],
  )

  -- `dict.update`
  abbrev pub update : Document J → Document J → Document J
  update doc [] = doc
  update doc ((k, v) ∷ more) = update (put k v doc) more

  unfoldable pub doc_capabilities : Daemon J → Bool → Outcome (Document J) × List Touch
  doc_capabilities d false = (
    answers (
        ("verb", text "capabilities")
        ∷ ("ok", flag true)
        ∷ ("online", flag false)
        ∷ ("version", text d.version)
        ∷ ("capabilities", names [])
        ∷ ("actions", names [])
        ∷ ("error", text "runtime offline")
        ∷ []),
    [],
  )
  doc_capabilities d true = (
    map_answer
        (λ caps.
          update
            (("verb", text "capabilities")
              ∷ ("ok", flag true)
              ∷ ("online", flag true)
              ∷ ("version", text d.version)
              ∷ [])
            caps)
        d.caps,
    asks_caps ∷ [],
  )

  unfoldable pub doc_health : Daemon J → Bool → Outcome (Document J) × List Touch
  doc_health d online = (
    map_answer
        (λ rows.
          ("verb", text "health")
          ∷ ("ok", flag true)
          ∷ ("online", flag online)
          ∷ ("version", text d.version)
          ∷ ("checks", checks rows)
          ∷ ("failed", number (length (keep (λ c. not c.passed) rows)))
          ∷ [])
        d.health,
    runs_doctors ∷ [],
  )

  -- The keys that `_doc_present` sets on its document.
  abbrev refuse : String → Document J → Document J
  refuse message doc = put "error" (text message) doc

  abbrev pub is_running : Status J → Bool
  is_running s = elim s.state [ none ↦ false | some state ↦ str_eq state "running" ]

  -- `_doc_present` from the call of `remote.status` on.
  unfoldable pub present_doc :
      (repr : Option String → String) → Document J → Outcome (Status J) → Outcome (Document J)
  present_doc repr doc (runtime_error t m) = answers (refuse (exc_text t m) doc)
  present_doc repr doc (exception t m) = exception t m
  present_doc repr doc (answers s) =
      let doc' : Document J =
        put "runtime_state" (elim s.state [ none ↦ null | some state ↦ text state ]) doc in
      if is_running s
      then answers (put "url" (text "http://127.0.0.1:8468") (put "ready" (flag true) doc'))
      else answers (refuse (fstring ("runtime state is " ∷ repr s.state ∷ [])) doc')

  unfoldable pub doc_present :
      (repr : Option String → String) (install : String)
      → Daemon J
      → Bool
      → Outcome (Document J) × List Touch
  unfolding present_doc
  doc_present repr install d online =
      let doc : Document J =
        ("verb", text "present")
        ∷ ("ok", flag true)
        ∷ ("version", text d.version)
        ∷ ("install_path", text install)
        ∷ ("online", flag online)
        ∷ ("ready", flag false)
        ∷ ("url", null)
        ∷ ("error", null)
        ∷ [] in
      elim online [
        | false ↦ (answers (refuse offline doc), [])
        | true ↦ (present_doc repr doc d.status, asks_status ∷ [])
      ]

  unfoldable pub doc_deployment : Daemon J → Bool → Outcome (Document J) × List Touch
  doc_deployment d online =
      let doc : Document J =
        ("verb", text "deployment")
        ∷ ("ok", flag true)
        ∷ ("version", text d.version)
        ∷ ("deploymentFormatVersion", text "1")
        ∷ ("runtimeState", text "unknown")
        ∷ ("bridgeContractVersion", text "11")
        ∷ ("compatibility", text "unknown")
        ∷ [] in
      elim online [
        | false ↦ (answers (refuse offline (put "deployed" (flag false) doc)), [])
        | true ↦ elim d.status [
          | runtime_error t m ↦
              (answers (refuse (exc_text t m) (put "deployed" (flag false) doc)), asks_status ∷ [])
          | exception t m ↦ (exception t m, asks_status ∷ [])
          | answers s ↦
              let state : String = elim s.state [
                | none ↦ "unknown"
                | some state ↦ if str_eq state "" then "unknown" else state
              ] in
              (
                answers (
                    put "compatibility" (text "current")
                      (put "runtimeState" (text state) (put "deployed" (flag true) doc))),
                asks_status ∷ [],
              )
        ]
      ]

  -- `repr_view` is `{view!r}`.
  unfoldable pub doc_read :
      (repr_view view : String) → Daemon J → Bool → Outcome (Document J) × List Touch
  doc_read repr_view view d online =
      let refused : String → Document J = λ message.
        ("verb", text "read")
        ∷ ("ok", flag false)
        ∷ ("view", text view)
        ∷ ("error", text message)
        ∷ [] in
      if is_in view read_views
      then elim online [
        | false ↦ (answers (refused offline), [])
        | true ↦ (
          elim (d.intel_view view) [
            | runtime_error t m ↦ answers (refused (exc_text t m))
            | exception t m ↦ exception t m
            | answers j ↦ answers (
                ("verb", text "read")
                ∷ ("ok", flag true)
                ∷ ("view", text view)
                ∷ ("schema", text "buster.view/1")
                ∷ ("data", json j)
                ∷ [])
          ],
          asks_view view ∷ [],
        )
      ]
      else (
        answers (
            ("verb", text "read")
            ∷ ("ok", flag false)
            ∷ ("error", text (fstring ("unknown view: " ∷ repr_view ∷ [])))
            ∷ ("available", names read_views)
            ∷ []),
        [],
      )
