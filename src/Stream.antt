-- ===== src/Stream.antt =====
-- src/modsecurity_proxy_wasm.cc: the state of `ModSecContext` and what its handlers talk to.
-- The engine (libModSecurity) and the host (the proxy-wasm SDK) are not in the repository: the
-- engine is a parameter, and the host's answers are arguments of each callback.
pub mod Log
pub mod Record
pub mod Interrupt
pub mod Body
pub mod Request
pub mod Response
pub mod Events
pub mod Phases
pub mod Tests
use modsecurity_proxy_wasm.Base.{
  ℕ, Bool, true, false, List, [], ◌∷◌, ◌++◌, Option, none, some, ℤ, pos, negsuc,
}
use modsecurity_proxy_wasm.Text.{Bytes, codes}
use modsecurity_proxy_wasm.Options.{PluginOptions}
use modsecurity_proxy_wasm.Metrics.{Metrics, MetricHost}
use modsecurity_proxy_wasm.Telemetry.{Floats}

-- The fields of the engine's `RuleMessage` that the filter reads.
pub record RuleMessage : Type 0 where
  pub rule_id : ℤ
  pub phase : ℤ
  pub severity : ℤ
  pub is_disruptive : Bool
  pub message : Bytes
  pub match_data : Bytes
  pub match : Bytes
  pub tags : List Bytes

-- `ModSecurityIntervention`, as the engine fills it.
pub record Intervention : Type 0 where
  pub status : ℤ
  pub url : Option Bytes
  pub log : Option Bytes

-- The calls of a `Transaction` that change it.
pub data EngineCall : Type 0 where
  process_connection : Bytes → ℤ → Bytes → ℤ → EngineCall
  process_uri : Bytes → Bytes → Bytes → EngineCall
  add_request_header : Bytes → Bytes → EngineCall
  process_request_headers : EngineCall
  append_request_body : Bytes → EngineCall
  process_request_body : EngineCall
  add_response_header : Bytes → Bytes → EngineCall
  process_response_headers : ℤ → Bytes → EngineCall
  append_response_body : Bytes → EngineCall
  process_response_body : EngineCall
  process_logging : EngineCall

-- libModSecurity. A call also reports rule messages through the log callback, in order;
-- `rules_messages` is `m_rulesMessages`; `none` stands for a null pointer.
pub record Engine : Type 1 where
  pub Transaction : Type 0
  pub new_transaction : Bytes → Transaction
  pub perform : EngineCall → Transaction → Transaction × List RuleMessage
  pub intervention : Transaction → Option Intervention × Transaction
  pub rules_messages : Transaction → List RuleMessage
  pub reqbody_error : Transaction → Option Bytes
  pub reqbody_processor_error : Transaction → Option Bytes
  pub reqbody_error_msg : Transaction → Option Bytes
  pub reqbody_processor_error_msg : Transaction → Option Bytes

-- What a stream reads of its root context: the options, and whether `modsec_` and `rules_` are set.
pub record Root : Type 1 where
  pub engine : Engine
  pub floats : Floats
  pub options : PluginOptions floats.Double
  pub ready : Bool

pub data Buffer : Type 0 where
  http_request_body http_response_body : Buffer

-- The host's answers while a callback runs; `none` where a call fails or finds nothing.
pub record Host : Type 0 where
  pub metric : MetricHost
  pub stream_id : ℕ
  pub value : List Bytes → Option Bytes
  pub port : List Bytes → Option ℕ
  pub request_header : Bytes → Option Bytes
  pub request_header_pairs : Option (List (Bytes × Bytes))
  pub response_header_pairs : Option (List (Bytes × Bytes))
  pub buffer_size : Buffer → Option ℕ
  pub buffer_bytes : Buffer → ℕ → ℕ → Option Bytes
  pub filter_state_ok : Bytes → Bytes → Bool

-- What a handler does to the engine and the host.
pub data Effect : Type 0 where
  new_transaction : Bytes → Effect
  delete_transaction : Effect
  engine_call : EngineCall → Effect
  local_reply : ℤ → Bytes → List (Bytes × Bytes) → Effect
  set_buffer : Buffer → ℕ → ℕ → Bytes → Effect
  replace_response_header : Bytes → Bytes → Effect
  set_filter_state : Bytes → Bytes → Effect
  log_warn : Bytes → Effect

-- `FilterHeadersStatus`, `FilterDataStatus` and `FilterTrailersStatus`
pub data FilterStatus : Type 0 where
  continue stop_iteration stop_iteration_and_buffer stop_iteration_no_buffer : FilterStatus

pub record ExportMatch : Type 0 where
  pub event : Bytes
  pub rule_id : ℤ
  pub phase : Bytes
  pub severity : ℤ
  pub disruptive : Bool
  pub msg : Bytes
  pub match_data : Bytes

-- The members of `ModSecContext`, whether `g_active_modsec_context` is this context, the metrics of
-- the root context, and the effects so far, the newest first.
pub record Stream (Tx : Type 0) : Type 0 where
  pub transaction : Option Tx
  pub request_body_received : ℕ
  pub request_body_processed : Bool
  pub response_body_received : ℕ
  pub response_body_processed : Bool
  pub response_body_interrupted : Bool
  pub logging_phase_done : Bool
  pub interrupted : Bool
  pub last_disruptive_rule_id : ℤ
  pub rules_messages_seen : ℕ
  pub request_id : Bytes
  pub method : Bytes
  pub path : Bytes
  pub client_ip : Bytes
  pub http_version_token : Bytes
  pub action : Bytes
  pub last_phase : Bytes
  pub export_annotated : Bool
  pub export_matches : List ExportMatch
  pub is_active : Bool
  pub metrics : Metrics
  pub effects : List Effect

-- Whether a pointer is not null.
abbrev pub is_some {ℓ} : {A : Type ℓ} → Option A → Bool
is_some none = false
is_some (some a) = true

-- The names of modsecurity_proxy_wasm_metric_phase
abbrev pub request_headers_phase : Bytes
request_headers_phase = codes "http_request_headers"

abbrev pub request_body_phase : Bytes
request_body_phase = codes "http_request_body"

abbrev pub response_headers_phase : Bytes
response_headers_phase = codes "http_response_headers"

abbrev pub response_body_phase : Bytes
response_body_phase = codes "http_response_body"

abbrev pub emit : {Tx : Type 0} → Effect → Stream Tx → Stream Tx
emit eff w = record w { effects = eff ∷ w.effects }

-- A new context, before `onCreate`.
abbrev pub created : {Tx : Type 0} → Metrics → Stream Tx
created m = record {
  transaction = none;
  request_body_received = 0;
  request_body_processed = false;
  response_body_received = 0;
  response_body_processed = false;
  response_body_interrupted = false;
  logging_phase_done = false;
  interrupted = false;
  last_disruptive_rule_id = pos 0;
  rules_messages_seen = 0;
  request_id = [];
  method = [];
  path = [];
  client_ip = [];
  http_version_token = codes "1.1";
  action = codes "pass";
  last_phase = [];
  export_annotated = false;
  export_matches = [];
  is_active = false;
  metrics = m;
  effects = [];
}

-- `onCreate`, which leaves `transaction_` and `logging_phase_done_` alone.
unfoldable pub on_create : {Tx : Type 0} → Stream Tx → Stream Tx
on_create w = record w {
  request_body_received = 0;
  request_body_processed = false;
  response_body_received = 0;
  response_body_processed = false;
  response_body_interrupted = false;
  interrupted = false;
  last_disruptive_rule_id = pos 0;
  rules_messages_seen = 0;
  request_id = [];
  method = [];
  path = [];
  client_ip = [];
  http_version_token = codes "1.1";
  action = codes "pass";
  last_phase = [];
  export_annotated = false;
  export_matches = [];
}
