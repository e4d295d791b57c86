-- ===== src/Options.antt =====
-- src/metrics.h and src/waf_config.h: the plugin's options. `double` is a parameter of the types,
-- since the development has no floating-point numbers.
use modsecurity_proxy_wasm.Base.{Bool, List, ℤ}
use modsecurity_proxy_wasm.Text.{Bytes}

-- `WafMetricOptions`
pub record MetricOptions : Type 0 where
  pub labels : List (Bytes × Bytes)
  pub enabled : Bool
  pub per_rule_id : Bool
  pub rule_tags : Bool
  pub dual_prefix : Bool

-- `WafBlockOptions`
pub record BlockOptions : Type 0 where
  pub message : Bytes
  pub status : ℤ
  pub blocked_header : Bytes
  pub add_rule_id_header : Bool
  pub rule_id_header : Bytes
  pub add_request_id_header : Bool
  pub request_id_header : Bytes

-- `WafTelemetryOptions`
pub record TelemetryOptions (D : Type 0) : Type 0 where
  pub mode : Bytes
  pub traces_enabled : Bool
  pub sample_rate : D
  pub sample_disruptive : D
  pub redact : Bool
  pub include_match_data : Bool

-- `WafPluginOptions`
pub record PluginOptions (D : Type 0) : Type 0 where
  pub metrics : MetricOptions
  pub block : BlockOptions
  pub telemetry : TelemetryOptions D
  pub mode : Bytes
  pub config_id : Bytes
  pub allow_fallback : Bool
  pub fullwidth_normalize : Bool
