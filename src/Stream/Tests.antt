-- ===== src/Stream/Tests.antt =====
-- The theorems on whole streams at concrete streams.
use modsecurity_proxy_wasm.Base.{
  ℕ, ◌≤◌, ◌≡◌, refl, Bool, true, false, List, [], ◌∷◌, none, some, pos, ltb, leb, ◌/◌,
}
use modsecurity_proxy_wasm.Text.{codes, equal, is_space, is_digit}
use modsecurity_proxy_wasm.Telemetry.{Floats}
use modsecurity_proxy_wasm.Options.{PluginOptions}
use modsecurity_proxy_wasm.Metrics.{Metrics}
use modsecurity_proxy_wasm.Stream.{
  Stream, stop_iteration, created, Engine, Root, Host, process_request_body, on_create,
}
use modsecurity_proxy_wasm.Stream.Events.{
  Callback, request_body, response_headers, response_body, log, on_delete, stream, handle_all,
  finish_phases, finish_request, finish_response,
}
use modsecurity_proxy_wasm.Stream.Record.{
  maybe_annotate_export, record_all, call_engine, on_log_callback,
}
use modsecurity_proxy_wasm.Stream.Request.{
  on_request_headers, identify, inspect_request_headers, run_request_headers,
  finish_request_headers, read_request_headers, send_uri, connect, begin_transaction,
  add_request_headers, add_host, note_header, host_of_authority, request_path, request_method,
  correlated_id,
}
use modsecurity_proxy_wasm.Stream.Interrupt.{
  unless_blocked, process_intervention, answer_intervention, ask, flush_new_rule_messages,
  run_request_body_phase, log_request_body_processor_errors, run_logging_phase_if_needed,
  finalize_response_body_phase, log_and_continue,
}
use modsecurity_proxy_wasm.Http.{header_name_equals, parse_content_length}
use modsecurity_proxy_wasm.Fullwidth.{normalize_fullwidth}
use modsecurity_proxy_wasm.Stream.Phases.{view, request, response, logging, runs, is_reply, total}
use modsecurity_proxy_wasm.Stream.Phases.Answers.{
  Answers, on_request_headers-Answers, on_request_trailers-Answers, on_response_headers-Answers,
}
use modsecurity_proxy_wasm.Stream.Phases.Idle.{GoesOn, unready_does_nothing}
use modsecurity_proxy_wasm.Stream.Body.{on_request_trailers}
use modsecurity_proxy_wasm.Stream.Response.{on_response_headers}
use modsecurity_proxy_wasm.Stream.Phases.Once.{
  phases_at_most_once, request_and_logging_run_once, response_runs_once,
}

-- An engine whose transaction says whether it interrupts next: `strict` is what phase 2 makes of it.
abbrev pub engine : Bool → Engine
engine strict = record {
  Transaction = Bool;
  new_transaction = λ id. false;
  perform = λ c tx. elim c [ process_request_body ↦ (strict, []) | _ ↦ (tx, []) ];
  intervention = λ tx. elim tx [
    | true ↦ (some (record { status = pos 403; url = none; log = none }), false)
    | false ↦ (none, false)
  ];
  rules_messages = λ tx. [];
  reqbody_error = λ tx. none;
  reqbody_processor_error = λ tx. none;
  reqbody_error_msg = λ tx. none;
  reqbody_processor_error_msg = λ tx. none;
}

abbrev floats : Floats
floats = record { Double = ℕ; of_ℕ = λ n. n; divide = λ a b. a / b; less = ltb; less_eq = leb }

abbrev options : PluginOptions ℕ
options = record {
  metrics = record {
    labels = [];
    enabled = false;
    per_rule_id = false;
    rule_tags = false;
    dual_prefix = false;
  };
  block = record {
    message = [];
    status = pos 0;
    blocked_header = [];
    add_rule_id_header = false;
    rule_id_header = [];
    add_request_id_header = false;
    request_id_header = [];
  };
  telemetry = record {
    mode = codes "Direct";
    traces_enabled = false;
    sample_rate = 1;
    sample_disruptive = 1;
    redact = true;
    include_match_data = false;
  };
  mode = codes "Enforce";
  config_id = codes "c";
  allow_fallback = false;
  fullwidth_normalize = true;
}

abbrev root : Bool → Root
root strict = record { engine = engine strict; floats = floats; options = options; ready = true }

-- A host with one header, and a body of one byte in its buffers.
abbrev pub host : Host
host = record {
  metric = record { define_metric = λ kind name. some 1; heap_size = 0 };
  stream_id = 7;
  value = λ path. none;
  port = λ path. none;
  request_header = λ name. none;
  request_header_pairs = some ((codes "content-length", codes "1") ∷ []);
  response_header_pairs = some ((codes "content-length", codes "1") ∷ []);
  buffer_size = λ b. some 1;
  buffer_bytes = λ b from size. some (b'a' ∷ []);
  filter_state_ok = λ name text. true;
}

abbrev metrics : Metrics
metrics = record {
  options = options.metrics;
  label_suffix = [];
  metric_ids = [];
  tx_count = 0;
  distinct_rule_metrics = 0;
  distinct_tag_metrics = 0;
  calls = [];
}

-- The same plugin, whose configuration has failed.
abbrev unready : Root
unready = record { engine = engine true; floats = floats; options = options; ready = false }

-- The whole life of a stream, its body in two parts, and `onLog` twice.
abbrev callbacks : List (Host × Callback)
callbacks =
    (host, request_body 1 false)
    ∷ (host, request_body 1 true)
    ∷ (host, response_headers false)
    ∷ (host, response_body 1 true)
    ∷ (host, log)
    ∷ (host, log)
    ∷ []

phases_at_most_once_example :
    total
      (runs logging)
      (on_delete (root true) host (stream (root true) host false callbacks metrics)).effects
    ≤ 1
phases_at_most_once_example =
    phases_at_most_once (root true) host host false callbacks metrics logging

request_and_logging_run_once_example :
    (total
        (runs request)
        (on_delete (root true) host (stream (root true) host false [] metrics)).effects
      ≡ 1)
    × (total
          (runs logging)
          (on_delete (root true) host (stream (root true) host false [] metrics)).effects
        ≡ 1)
request_and_logging_run_once_example =
    request_and_logging_run_once (root true) host host false [] metrics refl

calm : (on_delete (root false) host (stream (root false) host false [] metrics)).interrupted ≡ false
unfolding on_delete stream handle_all finish_phases finish_request finish_response
    maybe_annotate_export on_request_headers identify inspect_request_headers run_request_headers
    finish_request_headers read_request_headers send_uri connect begin_transaction
    add_request_headers add_host note_header host_of_authority request_path request_method
    correlated_id unless_blocked process_intervention answer_intervention ask
    flush_new_rule_messages record_all call_engine on_log_callback run_request_body_phase
    log_request_body_processor_errors run_logging_phase_if_needed finalize_response_body_phase
    log_and_continue equal header_name_equals parse_content_length on_create normalize_fullwidth
    is_space is_digit
calm = refl

response_runs_once_example :
    (total
        (runs response)
        (on_delete (root false) host (stream (root false) host false [] metrics)).effects
      ≡ 1)
    × (total is_reply
          (on_delete (root false) host (stream (root false) host false [] metrics)).effects
        ≡ 0)
response_runs_once_example = response_runs_once (root false) host host false [] metrics refl calm

-- A new context.
abbrev fresh : Stream Bool
fresh = created metrics

on_request_headers-Answers_example :
    Answers stop_iteration (view fresh).replies (on_request_headers (root true) host true fresh)
on_request_headers-Answers_example = on_request_headers-Answers (root true) host true fresh

on_request_trailers-Answers_example :
    Answers stop_iteration 0
      (on_request_trailers (root true) host (record fresh { transaction = some true }))
on_request_trailers-Answers_example =
    on_request_trailers-Answers (root true) host (record fresh { transaction = some true })

on_response_headers-Answers_example :
    Answers stop_iteration 0
      (on_response_headers (root true) host true (record fresh { transaction = some true }))
on_response_headers-Answers_example =
    on_response_headers-Answers (root true) host true (record fresh { transaction = some true })

unready_does_nothing_example :
    GoesOn unready host false callbacks metrics
    × (((on_delete unready host (stream unready host false callbacks metrics)).effects ≡ [])
        × ((on_delete unready host (stream unready host false callbacks metrics)).metrics
            ≡ metrics))
unready_does_nothing_example = unready_does_nothing unready host host false callbacks metrics refl
