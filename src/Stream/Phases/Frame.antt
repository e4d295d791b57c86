-- ===== src/Stream/Phases/Frame.antt =====
-- What the functions below the handlers do to the view.
use mathlib.Core.Path.{subst}
use modsecurity_proxy_wasm.Base.{
  ℕ, ◌+◌, ◌≡◌, refl, ◌∙◌, ◌⊎◌, inl, inr, Bool, true, List, [], ◌∷◌, Option, none, some, arith, ℤ,
  pos, minus_one, if◌then◌else◌, Option-cases, drop,
}
use modsecurity_proxy_wasm.Text.{Bytes, codes}
use modsecurity_proxy_wasm.Stream.{
  RuleMessage, Intervention, Root, Host, EngineCall, engine_call, process_request_body,
  process_response_body, process_logging,
}
use modsecurity_proxy_wasm.Stream.Record.{
  State, stash_export_match, record_rule_match, record_all, on_log_callback, call_engine,
  maybe_annotate_export,
}
use modsecurity_proxy_wasm.Stream.Interrupt.{
  flush_new_rule_messages, log_request_body_processor_errors, note_intervention,
  process_intervention, send_block_local_response, finalize_response_body_phase,
  run_logging_phase_if_needed, sanitize_interrupted_response_body, run_request_body_phase,
  filter_disruptive, or_empty, export_interrupted, mark_interrupted, messages, ask,
  answer_intervention,
}
use modsecurity_proxy_wasm.Stream.Phases.{request, response, logging, runs, View, view}

-- The view after a call of the engine.
abbrev pub called : EngineCall → View → View
called c p = record p {
  requests = runs request (engine_call c) + p.requests;
  responses = runs response (engine_call c) + p.responses;
  loggings = runs logging (engine_call c) + p.loggings;
}

module _ (r : Root) (h : Host) where
  stash-view :
      (event : Bytes) (rule_id : ℤ) (phase : Bytes) (severity : ℤ) (disruptive : Bool)
      (msg match_data : Bytes) (w : State r)
      → view (stash_export_match r event rule_id phase severity disruptive msg match_data w)
        ≡ view w
  unfolding stash_export_match
  stash-view event rule_id phase severity disruptive msg match_data w = ground arith

  record_rule_match-view :
      (m : RuleMessage) (w : State r) → view (record_rule_match r h m w) ≡ view w
  unfolding record_rule_match
  record_rule_match-view m w = stash-view _ _ _ _ _ _ _ _ ∙ ground arith

  record_all-view : (ms : List RuleMessage) (w : State r) → view (record_all r h ms w) ≡ view w
  unfolding record_all
  record_all-view [] w = refl
  record_all-view (m ∷ ms) w = record_all-view ms _ ∙ record_rule_match-view m w

  on_log_callback-view :
      (ms : List RuleMessage) (w : State r) → view (on_log_callback r h ms w) ≡ view w
  unfolding on_log_callback
  on_log_callback-view [] w = refl
  on_log_callback-view (m ∷ ms) w =
      on_log_callback-view ms _ ∙ ground (arith, record_rule_match-view m w)

  pub call_engine-view :
      (c : EngineCall) (w : State r) {tx : r.engine.Transaction}
      → w.transaction ≡ some tx
      → view (call_engine r h c w) ≡ called c (view w)
  unfolding call_engine
  call_engine-view c w {tx} e = rw (e, call_engine) (on_log_callback-view _ _ ∙ ground arith)

  -- A call that is none of the three phases leaves the view alone.
  pub call_engine-quiet :
      (c : EngineCall) (w : State r)
      → runs request (engine_call c) ≡ 0
      → runs response (engine_call c) ≡ 0
      → runs logging (engine_call c) ≡ 0
      → view (call_engine r h c w) ≡ view w
  unfolding call_engine
  call_engine-quiet c w p q s = elim (Option-cases w.transaction) [
    | inl e ↦ ground arith
    | inr (tx, e) ↦ call_engine-view c w e ∙ ground arith
  ]

  pub maybe_annotate_export-view : (w : State r) → view (maybe_annotate_export r h w) ≡ view w
  unfolding maybe_annotate_export
  maybe_annotate_export-view w = ground arith

  flush_new_rule_messages-view : (w : State r) → view (flush_new_rule_messages r h w) ≡ view w
  unfolding flush_new_rule_messages
  flush_new_rule_messages-view w = elim (Option-cases w.transaction) [
    | inl e ↦ ground arith
    | inr (tx, e) ↦ ground (
      arith,
      record_all-view (filter_disruptive (drop w.rules_messages_seen (r.engine.rules_messages tx)))
          w,
    )
  ]

  log_request_body_processor_errors-view :
      (w : State r) → view (log_request_body_processor_errors r w) ≡ view w
  unfolding log_request_body_processor_errors
  log_request_body_processor_errors-view w = ground arith

  export_interrupted-view :
      (phase : Bytes) (i : Intervention) (w : State r)
      → view (export_interrupted r h phase i w) ≡ record (view w) { interrupted = true }
  unfolding export_interrupted mark_interrupted
  export_interrupted-view phase i w =
      let marked = mark_interrupted r h phase i w in
      let stashed =
        stash_export_match r (codes "tx_interrupt") marked.last_disruptive_rule_id phase minus_one
          true (or_empty i.log) [] marked in
      maybe_annotate_export-view stashed
      ∙ stash-view (codes "tx_interrupt") marked.last_disruptive_rule_id phase minus_one true
          (or_empty i.log) [] marked

  note_intervention-view :
      (phase : Bytes) (i : Intervention) (w : State r)
      → view (note_intervention r h phase i w).1 ≡ record (view w) { interrupted = true }
  unfolding note_intervention
  note_intervention-view phase i w = ground (arith, export_interrupted-view phase i w)

  -- An intervention is all that asking for one may change in the view, and a status other than 0
  -- comes with one.
  abbrev pub Asked : ℤ × State r → View → Type 0
  Asked (st, w') p = ((st ≡ pos 0) × (view w' ≡ p)) ⊎ (view w' ≡ record p { interrupted = true })

  ask-view : (w : State r) → view (ask r w).1 ≡ view w
  unfolding ask
  ask-view w = ground arith

  answer_intervention-Asked :
      (phase : Bytes) (o : Option Intervention) (w : State r)
      → Asked (answer_intervention r h phase o w) (view w)
  unfolding answer_intervention
  answer_intervention-Asked phase none w = inl (refl, refl)
  answer_intervention-Asked phase (some i) w = inr (note_intervention-view phase i w)

  pub process_intervention-Asked :
      (phase : Bytes) (w : State r) → Asked (process_intervention r h phase w) (view w)
  unfolding process_intervention
  process_intervention-Asked phase w =
      let flushed = flush_new_rule_messages r h w in
      subst (Asked (process_intervention r h phase w))
        (ask-view flushed ∙ flush_new_rule_messages-view w)
        (answer_intervention-Asked phase (ask r flushed).0 (ask r flushed).1)

  pub send_block_local_response-view :
      (status : ℤ) (w : State r)
      → view (send_block_local_response r status w)
        ≡ record (view w) { replies = (view w).replies + 1 }
  unfolding send_block_local_response
  send_block_local_response-view status w = ground arith

  pub run_request_body_phase-view :
      (w : State r) {tx : r.engine.Transaction}
      → w.transaction ≡ some tx
      → view (run_request_body_phase r h w)
        ≡ record (view w) { request_done = true; requests = (view w).requests + 1 }
  unfolding run_request_body_phase
  run_request_body_phase-view w e = ground (
    arith,
    log_request_body_processor_errors-view (call_engine r h process_request_body w),
    call_engine-view process_request_body w e,
  )

  pub finalize_response_body_phase-view :
      (w : State r) {tx : r.engine.Transaction}
      → w.transaction ≡ some tx
      → view (finalize_response_body_phase r h w) ≡ (
          if w.response_body_processed
          then view w
          else record (view w) { response_done = true; responses = (view w).responses + 1 })
  unfolding finalize_response_body_phase
  finalize_response_body_phase-view w e = ground (arith, call_engine-view process_response_body w e)

  pub run_logging_phase_if_needed-view :
      (w : State r) {tx : r.engine.Transaction}
      → w.transaction ≡ some tx
      → view (run_logging_phase_if_needed r h w) ≡ (
          if w.logging_phase_done
          then view w
          else record (view w) { logging_done = true; loggings = (view w).loggings + 1 })
  unfolding run_logging_phase_if_needed
  run_logging_phase_if_needed-view w e =
      let logged = call_engine r h process_logging (record w { is_active = true }) in
      ground (
        arith,
        call_engine-view process_logging (record w { is_active = true }) e,
        record_all-view (drop w.rules_messages_seen (messages r logged)) logged,
      )

  pub sanitize_interrupted_response_body-view :
      (size : ℕ) (w : State r) → view (sanitize_interrupted_response_body r h size w).1 ≡ view w
  unfolding sanitize_interrupted_response_body
  sanitize_interrupted_response_body-view size w = ground arith
