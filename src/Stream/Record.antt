-- ===== src/Stream/Record.antt =====
-- src/modsecurity_proxy_wasm.cc: how a rule match is recorded, and the calls of the engine, which
-- report matches through the log callback.
use modsecurity_proxy_wasm.Base.{
  ℕ, Bool, true, false, ◌&&◌, ◌||◌, List, [], ◌∷◌, ◌++◌, none, some, if◌then◌else◌, ltb, length,
  take, ℤ, pos, negsuc, ◌==◌,
}
use modsecurity_proxy_wasm.Text.{Bytes, codes, equal, decimal}
use modsecurity_proxy_wasm.Metrics.{count_rule_match, phase_name_from_rule}
use modsecurity_proxy_wasm.Telemetry.{sample_at}
use modsecurity_proxy_wasm.Stream.{
  RuleMessage, Root, Host, EngineCall, engine_call, log_warn, set_filter_state, Stream, ExportMatch,
  emit,
}
use modsecurity_proxy_wasm.Stream.Log.{
  rule_match_line, structured_event, tags_csv, rollup, Identity,
}

abbrev pub replace_last {ℓ} : {A : Type ℓ} → List A → A → List A
replace_last [] a = []
replace_last (x ∷ []) a = a ∷ []
replace_last (x ∷ y ∷ xs) a = x ∷ replace_last (y ∷ xs) a

-- `catalogPhaseName`, which has the cases of `phaseNameFromRule`
abbrev catalog_phase_name : ℤ → Bytes
catalog_phase_name rule_phase = phase_name_from_rule rule_phase

-- `i == j` on integers
abbrev pub int_equal : ℤ → ℤ → Bool
int_equal (pos m) (pos n) = m == n
int_equal (negsuc m) (negsuc n) = m == n
int_equal _ _ = false

-- At most 16 matches are kept; past that the interrupting rule replaces the last.
abbrev pub export_cap : ℕ
export_cap = 16

module _ (r : Root) where
  abbrev pub State : Type 0
  State = Stream r.engine.Transaction

  abbrev pub identity : State → Identity
  identity w = record {
    request_id = w.request_id;
    method = w.method;
    path = w.path;
    client_ip = w.client_ip;
  }

  -- `stashExportMatch`, for a phase that is not null
  unfoldable pub stash_export_match : Bytes → ℤ → Bytes → ℤ → Bool → Bytes → Bytes → State → State
  stash_export_match event rule_id phase severity disruptive msg match_data w =
      let m : ExportMatch = record {
        event = event;
        rule_id = rule_id;
        phase = phase;
        severity = severity;
        disruptive = disruptive;
        msg = take 256 msg;
        match_data = take 180 match_data;
      } in
      let w' = record w { last_phase = phase } in
      if ltb (length w.export_matches) export_cap
      then record w' { export_matches = w.export_matches ++ m ∷ [] }
      else if disruptive && int_equal w.last_disruptive_rule_id rule_id
      then record w' { export_matches = replace_last w.export_matches m }
      else w'

  -- `recordRuleMatch`
  unfoldable pub record_rule_match : Host → RuleMessage → State → State
  record_rule_match h m w =
      let noted = if m.is_disruptive then record w { last_disruptive_rule_id = m.rule_id } else w in
      let counted = record noted {
        metrics =
            count_rule_match h.metric m.phase m.severity m.is_disruptive m.rule_id m.tags
              noted.metrics;
      } in
      let line =
        structured_event r.options (identity counted) (codes "rule_match") m.rule_id m.phase []
          m.severity m.is_disruptive m.message (tags_csv m.tags) m.match_data m.match in
      stash_export_match (codes "rule_match") m.rule_id (catalog_phase_name m.phase) m.severity
        m.is_disruptive m.message m.match_data (emit (log_warn line) counted)

  unfoldable pub record_all : Host → List RuleMessage → State → State
  record_all h [] w = w
  record_all h (m ∷ ms) w = record_all h ms (record_rule_match h m w)

  -- `modsecurity_proxy_wasm_log_cb`, on each message that the engine reports
  unfoldable pub on_log_callback : Host → List RuleMessage → State → State
  on_log_callback h [] w = w
  on_log_callback h (m ∷ ms) w =
      on_log_callback h ms
        (if w.is_active then record_rule_match h m w else emit (log_warn (rule_match_line m)) w)

  -- A call `transaction_->f(...)`; the handlers make none with a null transaction.
  unfoldable pub call_engine : Host → EngineCall → State → State
  call_engine h c w = elim w.transaction [
    | none ↦ w
    | some tx ↦
        on_log_callback h (r.engine.perform c tx).1
          (emit (engine_call c) (record w { transaction = some (r.engine.perform c tx).0 }))
  ]

  -- `maybeAnnotateExport`
  unfoldable pub maybe_annotate_export : Host → State → State
  maybe_annotate_export h w =
      let tel = r.options.telemetry in
      let seed = decimal h.stream_id in
      let rate = if w.interrupted then tel.sample_disruptive else tel.sample_rate in
      let text =
        rollup r.options w.interrupted w.action w.last_phase w.client_ip w.export_matches in
      let event_ok = h.filter_state_ok (codes "kubewaf.event") text in
      let export_ok = h.filter_state_ok (codes "kubewaf.export") (codes "1") in
      let set =
        emit (set_filter_state (codes "kubewaf.export") (codes "1"))
          (emit (set_filter_state (codes "kubewaf.event") text) w) in
      let annotated =
        if event_ok || export_ok then record set { export_annotated = true } else set in
      if equal tel.mode (codes "Managed")
        && tel.traces_enabled
        && (ltb 0 (length w.export_matches) || w.interrupted)
        && sample_at r.floats rate seed
      then annotated
      else w
