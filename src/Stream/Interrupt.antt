-- ===== src/Stream/Interrupt.antt =====
-- src/modsecurity_proxy_wasm.cc: interventions, the local replies that they lead to, and the phases
-- of the engine that more than one callback runs.
use modsecurity_proxy_wasm.Base.{
  ℕ, Bool, true, false, not, ◌&&◌, ◌||◌, List, [], ◌∷◌, ◌++◌, Option, none, some, if◌then◌else◌,
  ltb, leb, length, take, drop, ℤ, pos, negsuc, minus_one, is_zero, is_pos,
}
use modsecurity_proxy_wasm.Text.{Bytes, codes, is_empty, equal, decimal, decimal_int}
use modsecurity_proxy_wasm.Escape.{json_escape}
use modsecurity_proxy_wasm.Metrics.{count_tx_interruption, count_response_body_sanitized}
use modsecurity_proxy_wasm.Telemetry.{telemetry_action}
use modsecurity_proxy_wasm.Stream.{
  RuleMessage, Intervention, Root, Host, process_request_body, process_response_body,
  process_logging, log_warn, local_reply, set_buffer, replace_response_header, http_response_body,
  emit, FilterStatus, continue,
}
use modsecurity_proxy_wasm.Stream.Log.{structured_event}
use modsecurity_proxy_wasm.Stream.Record.{
  State, identity, stash_export_match, record_all, call_engine, maybe_annotate_export,
}

-- `code >= 100 && code <= 599`
unfoldable pub is_http_status : ℤ → Bool
is_http_status (pos n) = leb 100 n && leb n 599
is_http_status (negsuc n) = false

abbrev pub or_empty : Option Bytes → Bytes
or_empty none = []
or_empty (some s) = s

abbrev is_one : Option Bytes → Bool
is_one none = false
is_one (some s) = equal s (codes "1")

abbrev first_text : Option Bytes → Option Bytes → Bytes
first_text none o = or_empty o
first_text (some s) o = if is_empty s then or_empty o else s

abbrev pub filter_disruptive : List RuleMessage → List RuleMessage
filter_disruptive [] = []
filter_disruptive (m ∷ ms) =
    let rest = filter_disruptive ms in if m.is_disruptive then m ∷ rest else rest

module _ (r : Root) where
  abbrev pub messages : State r → List RuleMessage
  messages w = elim w.transaction [ none ↦ [] | some tx ↦ r.engine.rules_messages tx ]

  -- `flushNewRuleMessages`
  unfoldable pub flush_new_rule_messages : Host → State r → State r
  flush_new_rule_messages h w = elim w.transaction [
    | none ↦ w
    | some tx ↦
        let msgs = r.engine.rules_messages tx in
        let drained = record_all r h (filter_disruptive (drop w.rules_messages_seen msgs)) w in
        record drained { rules_messages_seen = length msgs }
  ]

  -- `logRequestBodyProcessorErrors`
  unfoldable pub log_request_body_processor_errors : State r → State r
  log_request_body_processor_errors w = elim w.transaction [
    | none ↦ w
    | some tx ↦
        let has_error =
          is_one (r.engine.reqbody_error tx) || is_one (r.engine.reqbody_processor_error tx) in
        let msg =
          first_text (r.engine.reqbody_error_msg tx) (r.engine.reqbody_processor_error_msg tx) in
        let event =
          codes "{\"component\":\"modsecurity-proxy-wasm\",\"event\":\"reqbody_error\",\"msg\":\""
          ++ (json_escape (take 256 msg) ++ codes "\"}") in
        if has_error && not (is_empty msg) then emit (log_warn event) (emit (log_warn msg) w) else w
  ]

  -- The flags, the metrics and the names that an interruption sets.
  unfoldable pub mark_interrupted : Host → Bytes → Intervention → State r → State r
  mark_interrupted h phase i w = record w {
    interrupted = true;
    metrics = count_tx_interruption h.metric phase w.last_disruptive_rule_id w.metrics;
    action = telemetry_action true (not (is_empty (or_empty i.url))) i.status (or_empty i.log);
    last_phase = phase;
  }

  -- The match that it stashes, and the export.
  unfoldable pub export_interrupted : Host → Bytes → Intervention → State r → State r
  export_interrupted h phase i w =
      let marked = mark_interrupted h phase i w in
      maybe_annotate_export r h (
        stash_export_match r (codes "tx_interrupt") marked.last_disruptive_rule_id phase minus_one
          true (or_empty i.log) [] marked)

  -- The rest of `processIntervention`, once the engine has reported `i`.
  unfoldable pub note_intervention : Host → Bytes → Intervention → State r → ℤ × State r
  note_intervention h phase i w =
      let exported = export_interrupted h phase i w in
      let block = r.options.block in
      let status = if is_http_status block.status then block.status else i.status in
      let line =
        structured_event r.options (identity r exported) (codes "tx_interrupt")
          exported.last_disruptive_rule_id minus_one phase minus_one true (or_empty i.log) [] []
          [] in
      (status, emit (log_warn line) exported)

  -- What the engine answers to `intervention`, and the transaction behind it.
  unfoldable pub ask : State r → Option Intervention × State r
  ask w = elim w.transaction [
    | none ↦ (none, w)
    | some tx ↦
        ((r.engine.intervention tx).0, record w { transaction = some (r.engine.intervention tx).1 })
  ]

  unfoldable pub answer_intervention : Host → Bytes → Option Intervention → State r → ℤ × State r
  answer_intervention h phase none w = (pos 0, w)
  answer_intervention h phase (some i) w = note_intervention h phase i w

  -- `processIntervention`: 0 where the engine does not interrupt.
  unfoldable pub process_intervention : Host → Bytes → State r → ℤ × State r
  process_intervention h phase w =
      let asked = ask (flush_new_rule_messages h w) in answer_intervention h phase asked.0 asked.1

  abbrev reply_headers : State r → List (Bytes × Bytes)
  reply_headers w =
      let block = r.options.block in
      (if not (is_empty block.blocked_header) then (block.blocked_header, codes "1") ∷ [] else [])
      ++ ((if block.add_rule_id_header
              && is_pos w.last_disruptive_rule_id
              && not (is_empty block.rule_id_header)
            then (block.rule_id_header, decimal_int w.last_disruptive_rule_id) ∷ []
            else [])
          ++ (if block.add_request_id_header
                && not (is_empty w.request_id)
                && not (is_empty block.request_id_header)
              then (block.request_id_header, w.request_id) ∷ []
              else []))

  -- `sendBlockLocalResponse`
  unfoldable pub send_block_local_response : ℤ → State r → State r
  send_block_local_response status w =
      let code = if is_http_status status then status else pos 403 in
      let block = r.options.block in
      let details = if is_empty block.message then codes "Forbidden" else block.message in
      emit (local_reply code details (reply_headers w)) w

  -- `if (int st = processIntervention(phase); st != 0) return sendBlock...(st);`, and what follows
  unfoldable pub unless_blocked :
      Host
      → Bytes
      → FilterStatus
      → (State r → FilterStatus × State r)
      → State r
      → FilterStatus × State r
  unless_blocked h phase blocked next w =
      let (st, w') = process_intervention h phase w in
      if is_zero st then next w' else (blocked, send_block_local_response st w')

  -- `finalizeResponseBodyPhase`
  unfoldable pub finalize_response_body_phase : Host → State r → State r
  finalize_response_body_phase h w = elim w.transaction [
    | none ↦ w
    | some tx ↦
        if w.response_body_processed then w else record (call_engine r h process_response_body w) {
          response_body_processed = true;
          response_body_received = 0;
        }
  ]

  -- `runLoggingPhaseIfNeeded`
  unfoldable pub run_logging_phase_if_needed : Host → State r → State r
  run_logging_phase_if_needed h w = elim w.transaction [
    | none ↦ w
    | some tx ↦
        let before = w.rules_messages_seen in
        let logged = call_engine r h process_logging (record w { is_active = true }) in
        let msgs = messages logged in
        let drained = record_all r h (drop before msgs) logged in
        if w.logging_phase_done
        then w
        else record drained { rules_messages_seen = length msgs; logging_phase_done = true }
  ]

  -- `sanitizeInterruptedResponseBody`
  unfoldable pub sanitize_interrupted_response_body : Host → ℕ → State r → FilterStatus × State r
  sanitize_interrupted_response_body h body_buffer_length w =
      let blocked = codes "Forbidden\n" in
      let counted =
        if w.response_body_interrupted
        then w
        else record w { metrics = count_response_body_sanitized h.metric w.metrics } in
      let replaced =
        if ltb 0 body_buffer_length
        then emit (set_buffer http_response_body 0 body_buffer_length blocked) counted
        else counted in
      let sized =
        emit (replace_response_header (codes "content-length") (decimal (length blocked)))
          replaced in
      (continue, record sized { response_body_interrupted = true })

  -- `runLoggingPhaseIfNeeded()` and `return Continue`
  unfoldable pub log_and_continue : Host → State r → FilterStatus × State r
  log_and_continue h w = (continue, run_logging_phase_if_needed h w)

  -- `processRequestBody` with its errors logged: phase 2, and the flag that it ran
  unfoldable pub run_request_body_phase : Host → State r → State r
  run_request_body_phase h w =
      record (log_request_body_processor_errors (call_engine r h process_request_body w)) {
        request_body_processed = true;
      }
