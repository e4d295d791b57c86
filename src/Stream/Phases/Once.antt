-- ===== src/Stream/Phases/Once.antt =====
-- The phases that a whole stream runs, counted at its end.
use modsecurity_proxy_wasm.Base.{
  ◌≤◌, ◌≡◌, refl, ◌∙◌, ap, inl, inr, Bool, true, false, List, arith, if-ind, Bool-cases, sym,
  absurd, true≢false,
}
use mathlib.Core.Path.{subst}
use modsecurity_proxy_wasm.Metrics.{Metrics}
use modsecurity_proxy_wasm.Stream.{
  Root, Host, FilterStatus, continue, is_some, request_body_phase, response_body_phase, created,
  on_create,
}
use modsecurity_proxy_wasm.Stream.Record.{State}
use modsecurity_proxy_wasm.Stream.Interrupt.{
  run_logging_phase_if_needed, run_request_body_phase, finalize_response_body_phase,
}
use modsecurity_proxy_wasm.Stream.Request.{on_request_headers}
use modsecurity_proxy_wasm.Stream.Events.{
  Callback, finish_request, finish_response, finish_phases, on_delete, stream,
}
use modsecurity_proxy_wasm.Stream.Phases.{
  Phase, request, response, logging, runs, is_reply, total, view,
}
use modsecurity_proxy_wasm.Stream.Phases.Frame.{
  maybe_annotate_export-view, run_request_body_phase-view, finalize_response_body_phase-view,
  run_logging_phase_if_needed-view,
}
use modsecurity_proxy_wasm.Stream.Phases.Handlers.{
  Steps-has, transaction_of, process-Near, run_logging-Steps,
}
use modsecurity_proxy_wasm.Stream.Phases.Requests.{on_request_headers-Steps}
use modsecurity_proxy_wasm.Stream.Phases.Counts.{
  bit, IsCounted, Steps-IsCounted, Steps-Grows, at_most_total, IsDone,
}
use modsecurity_proxy_wasm.Stream.Phases.Life.{
  handle_all-Steps, finish_phases-Steps, finish_request-Steps, finish_response-Steps,
}

module _ (r : Root) where
  -- A plugin that is not ready leaves its streams alone.
  pub on_request_headers-idle :
      (h : Host) (eos : Bool) (w : State r)
      → r.ready ≡ false
      → on_request_headers r h eos w ≡ (continue, w)
  unfolding on_request_headers
  on_request_headers-idle h eos w n =
      if-ind (λ (x : FilterStatus × State r). x ≡ (continue, w)) r.ready
        (λ e. absurd (true≢false (sym e ∙ n))) (λ _. refl)

  headers-IsCounted :
      (h : Host) (eos : Bool) (w : State r)
      → w.request_body_processed ≡ false
      → ((b : Bool) → IsCounted (record (view w) { has_transaction = b }))
      → IsCounted (view (on_request_headers r h eos w).1)
  headers-IsCounted h eos w f c = elim (Bool-cases r.ready) [
    | inl e ↦ Steps-IsCounted (on_request_headers-Steps r h eos w e f) (c true)
    | inr n ↦ rw (on_request_headers-idle h eos w n) (c (is_some w.transaction))
  ]

  stream-IsCounted :
      (h : Host) (eos : Bool) (cs : List (Host × Callback)) (m : Metrics)
      → IsCounted (view (stream r h eos cs m))
  unfolding stream on_create
  stream-IsCounted h eos cs m =
      let w : State r = on_create (created m) in
      let start : (b : Bool) → IsCounted (record (view w) { has_transaction = b }) = λ b. record {
        requests_met = refl;
        responses_at_most = ground arith;
        responses_met = λ _. refl;
        loggings_met = refl;
        no_reply = λ _. refl;
      } in
      Steps-IsCounted (handle_all-Steps r cs (on_request_headers r h eos w).1)
        (headers-IsCounted h eos w refl start)

  stream-has :
      (h : Host) (eos : Bool) (cs : List (Host × Callback)) (m : Metrics)
      → r.ready ≡ true
      → (view (stream r h eos cs m)).has_transaction ≡ true
  unfolding stream on_create
  stream-has h eos cs m ready =
      let w : State r = on_create (created m) in
      Steps-has (handle_all-Steps r cs (on_request_headers r h eos w).1)
        (Steps-has (on_request_headers-Steps r h eos w ready refl) refl)

  finish_request-done :
      (h : Host) (w : State r)
      → (view w).has_transaction ≡ true
      → (view (finish_request r h w)).request_done ≡ true
  unfolding finish_request
  finish_request-done h w has =
      let ran = run_request_body_phase r h w in
      let (tx, e) = transaction_of r h w has in
      if-ind (λ (x : State r). (view x).request_done ≡ true) w.request_body_processed (λ d. d)
        λ _. elim (process-Near r h request_body_phase ran) [
          | inl same ↦ ground (arith, run_request_body_phase-view r h w e)
          | inr same ↦ ground (arith, run_request_body_phase-view r h w e)
        ]

  finish_response-done :
      (h : Host) (w : State r)
      → (view w).has_transaction ≡ true
      → (view (finish_response r h w)).response_done ≡ true
  unfolding finish_response
  finish_response-done h w has =
      let final = finalize_response_body_phase r h w in
      let (tx, e) = transaction_of r h w has in
      if-ind (λ (x : State r). (view x).response_done ≡ true) w.response_body_processed (λ d. d)
        λ _. elim (process-Near r h response_body_phase final) [
          | inl same ↦ ground (arith, finalize_response_body_phase-view r h w e)
          | inr same ↦ ground (arith, finalize_response_body_phase-view r h w e)
        ]

  run_logging-done :
      (h : Host) (w : State r)
      → (view w).has_transaction ≡ true
      → (view (run_logging_phase_if_needed r h w)).logging_done ≡ true
  run_logging-done h w has =
      let (tx, e) = transaction_of r h w has in
      ground (arith, run_logging_phase_if_needed-view r h w e)

  on_delete-view :
      (h : Host) (w : State r)
      → (view w).has_transaction ≡ true
      → view (on_delete r h w) ≡ record (view (finish_phases r h w)) { has_transaction = false }
  unfolding on_delete
  on_delete-view h w has = ground arith

  on_delete-idle :
      (h : Host) (w : State r) → (view w).has_transaction ≡ false → view (on_delete r h w) ≡ view w
  unfolding on_delete
  on_delete-idle h w has = ground arith

  -- All phases are done when the stream ends.
  finish_phases-IsDone :
      (h : Host) (w : State r)
      → (view w).has_transaction ≡ true
      → IsDone (view (finish_phases r h w))
  unfolding finish_phases
  finish_phases-IsDone h w has =
      let active = record w { is_active = true } in
      let asked = finish_request r h active in
      let answered = finish_response r h asked in
      let logged = run_logging_phase_if_needed r h answered in
      let asked_has = Steps-has (finish_request-Steps r h active has) has in
      let answered_has = Steps-has (finish_response-Steps r h asked asked_has) asked_has in
      let second = Steps-Grows (finish_response-Steps r h asked asked_has) in
      let third = Steps-Grows (run_logging-Steps r h answered answered_has) in
      subst IsDone (sym (maybe_annotate_export-view r h logged)) (
        third.keeps_request (second.keeps_request (finish_request-done h active has)),
        third.keeps_response (finish_response-done h asked asked_has),
        run_logging-done h answered answered_has,
      )

  on_delete-IsCounted :
      (h : Host) (w : State r) → IsCounted (view w) → IsCounted (view (on_delete r h w))
  on_delete-IsCounted h w c = elim (Bool-cases (is_some w.transaction)) [
    | inl has ↦
        let c' = Steps-IsCounted (finish_phases-Steps r h w has) c in
        rw (on_delete-view h w has) (record {
          requests_met = c'.requests_met;
          responses_at_most = c'.responses_at_most;
          responses_met = c'.responses_met;
          loggings_met = c'.loggings_met;
          no_reply = c'.no_reply;
        })
    | inr has ↦ rw (on_delete-idle h w has) c
  ]

  -- The engine runs each of the phases 2, 4 and 5 at most once for a stream, whatever callbacks
  -- the host makes between `onRequestHeaders` and `onDelete`, in whatever order, and whatever the
  -- engine and the host answer.
  pub phases_at_most_once :
      (h h' : Host) (eos : Bool) (cs : List (Host × Callback)) (m : Metrics) (phase : Phase)
      → total (runs phase) (on_delete r h' (stream r h eos cs m)).effects ≤ 1
  phases_at_most_once h h' eos cs m phase =
      let w = stream r h eos cs m in
      at_most_total (on_delete r h' w) (on_delete-IsCounted h' w (stream-IsCounted h eos cs m))
        phase

  -- On a plugin that is ready, every stream that ends has run the phases 2 and 5 exactly once,
  -- whichever callbacks the host left out.
  pub request_and_logging_run_once :
      (h h' : Host) (eos : Bool) (cs : List (Host × Callback)) (m : Metrics)
      → r.ready ≡ true
      → (total (runs request) (on_delete r h' (stream r h eos cs m)).effects ≡ 1)
        × (total (runs logging) (on_delete r h' (stream r h eos cs m)).effects ≡ 1)
  request_and_logging_run_once h h' eos cs m ready =
      let w = stream r h eos cs m in
      let has = stream-has h eos cs m ready in
      let c = Steps-IsCounted (finish_phases-Steps r h' w has) (stream-IsCounted h eos cs m) in
      let (d, _, l) = finish_phases-IsDone h' w has in
      let v = on_delete-view h' w has in
      (
        ap (λ x. x.requests) v ∙ c.requests_met ∙ ap bit d,
        ap (λ x. x.loggings) v ∙ c.loggings_met ∙ ap bit l,
      )

  -- On a plugin that is ready, a stream that ends uninterrupted has run phase 4 exactly once, and no
  -- local reply was sent.
  pub response_runs_once :
      (h h' : Host) (eos : Bool) (cs : List (Host × Callback)) (m : Metrics)
      → r.ready ≡ true
      → (on_delete r h' (stream r h eos cs m)).interrupted ≡ false
      → (total (runs response) (on_delete r h' (stream r h eos cs m)).effects ≡ 1)
        × (total is_reply (on_delete r h' (stream r h eos cs m)).effects ≡ 0)
  response_runs_once h h' eos cs m ready calm =
      let w = stream r h eos cs m in
      let has = stream-has h eos cs m ready in
      let c = Steps-IsCounted (finish_phases-Steps r h' w has) (stream-IsCounted h eos cs m) in
      let (_, d, _) = finish_phases-IsDone h' w has in
      let v = on_delete-view h' w has in
      let n = sym (ap (λ x. x.interrupted) v) ∙ calm in
      (ap (λ x. x.responses) v ∙ c.responses_met n ∙ ap bit d, ap (λ x. x.replies) v ∙ c.no_reply n)
