-- ===== src/Config/Parse.antt =====
-- src/waf_config.cc: how the plugin's options are read from its configuration, and whether the
-- configuration may fall back on built-in rules.
pub mod Fallback
pub mod Operator
use modsecurity_proxy_wasm.Base.{
  Bool, true, false, not, ◌&&◌, ◌||◌, List, [], ◌∷◌, Option, none, some, if◌then◌else◌, pos,
}
use modsecurity_proxy_wasm.Text.{Bytes, codes, is_empty, equal, starts_with, contains, trim}
use modsecurity_proxy_wasm.Telemetry.{Floats}
use modsecurity_proxy_wasm.Options.{MetricOptions, BlockOptions, TelemetryOptions, PluginOptions}
use modsecurity_proxy_wasm.Config.Json.{
  looks_like_json, extract_json_object_slice, extract_metric_labels, extract_json_bool_value,
  extract_json_int_value, extract_json_string_value, extract_json_number_value,
}

abbrev or_none {ℓ} : {A : Type ℓ} → Option (List A) → List A
or_none none = []
or_none (some xs) = xs

-- `fillMetricOptions`, whatever `out` held before
unfoldable pub fill_metric_options : Bytes → MetricOptions
fill_metric_options config =
    let flat_rule = extract_json_bool_value config (codes "metrics_per_rule_id") in
    let flat_tags = extract_json_bool_value config (codes "metrics_rule_tags") in
    let labels = or_none (extract_metric_labels config) in
    let nested : MetricOptions = elim (extract_json_object_slice config (codes "metrics")) [
      | none ↦ record {
        labels = labels;
        enabled = extract_json_bool_value config (codes "metrics_enabled") true;
        per_rule_id = flat_rule false;
        rule_tags = flat_tags false;
        dual_prefix = false;
      }
      | some object ↦ record {
        labels = labels;
        enabled = extract_json_bool_value object (codes "enabled") true;
        per_rule_id = extract_json_bool_value object (codes "per_rule_id") false;
        rule_tags = extract_json_bool_value object (codes "rule_tags") false;
        dual_prefix = extract_json_bool_value object (codes "dual_prefix") false;
      }
    ] in
    if looks_like_json (trim config)
    then record nested {
      per_rule_id =
          if contains config (codes "\"metrics_per_rule_id\"")
          then flat_rule nested.per_rule_id
          else nested.per_rule_id;
      rule_tags =
          if contains config (codes "\"metrics_rule_tags\"")
          then flat_tags nested.rule_tags
          else nested.rule_tags;
    }
    else record {
      labels = [];
      enabled = true;
      per_rule_id = false;
      rule_tags = false;
      dual_prefix = false;
    }

-- `fillTransformOptions`: `fullwidth_normalize`
unfoldable pub fill_transform_options : Bytes → Bool
fill_transform_options config =
    let key = codes "fullwidth_normalize" in
    let read : Bool = elim (extract_json_object_slice config (codes "transforms")) [
      | some object ↦ extract_json_bool_value object key true
      | none ↦
          if contains config (codes "\"fullwidth_normalize\"")
          then extract_json_bool_value config key true
          else true
    ] in
    if looks_like_json (trim config) then read else true

-- The defaults of `WafBlockOptions`
abbrev pub block_defaults : BlockOptions
block_defaults = record {
  message = codes "Forbidden";
  status = pos 0;
  blocked_header = codes "x-blocked";
  add_rule_id_header = false;
  rule_id_header = codes "x-blocked-rule-id";
  add_request_id_header = false;
  request_id_header = codes "x-request-id";
}

abbrev unless_empty : Bytes → Bytes → Bytes
unless_empty text default_text = if is_empty text then default_text else text

-- `fillBlockOptions`
unfoldable pub fill_block_options : Bytes → BlockOptions
fill_block_options config =
    let d = block_defaults in
    let read : BlockOptions = elim (extract_json_object_slice config (codes "block")) [
      | some object ↦ record {
        message = unless_empty (extract_json_string_value object (codes "message")) d.message;
        status = extract_json_int_value object (codes "status") (pos 0);
        blocked_header =
            if contains object (codes "\"blocked_header\"")
            then extract_json_string_value object (codes "blocked_header")
            else d.blocked_header;
        add_rule_id_header = extract_json_bool_value object (codes "add_rule_id_header") false;
        rule_id_header =
            unless_empty (extract_json_string_value object (codes "rule_id_header"))
              d.rule_id_header;
        add_request_id_header =
            extract_json_bool_value object (codes "add_request_id_header") false;
        request_id_header =
            unless_empty (extract_json_string_value object (codes "request_id_header"))
              d.request_id_header;
      }
      | none ↦ record d {
        message = unless_empty (extract_json_string_value config (codes "block_message")) d.message;
      }
    ] in
    if looks_like_json (trim config) then read else d

-- The label loop of `hasKubeWafIdentity`
unfoldable pub has_waf_label : List (Bytes × Bytes) → Bool
has_waf_label [] = false
has_waf_label ((key, value) ∷ labels) =
    equal key (codes "waf_name") || equal key (codes "waf_namespace") || has_waf_label labels

-- What `hasKubeWafIdentity` makes of a mode, an id and labels. The test for an empty id is in the
-- test of its prefix.
abbrev pub is_identity : Bytes → Bytes → List (Bytes × Bytes) → Bool
is_identity mode config_id labels =
    equal mode (codes "kubewaf") || starts_with (codes "kubewaf/") config_id || has_waf_label labels

-- `hasKubeWafIdentity` behind its look at the options
unfoldable pub has_configured_identity : Bytes → Bool
has_configured_identity config =
    looks_like_json (trim config)
    && is_identity (extract_json_string_value config (codes "mode"))
        (extract_json_string_value config (codes "config_id"))
        (or_none (extract_metric_labels config))

-- `hasKubeWafIdentity`, where `none` stands for no options
unfoldable pub has_kubewaf_identity : {D : Type 0} → Bytes → Option (PluginOptions D) → Bool
has_kubewaf_identity config none = has_configured_identity config
has_kubewaf_identity config (some o) =
    is_identity o.mode o.config_id o.metrics.labels || has_configured_identity config

-- `wafConfigAllowsFallback`
unfoldable pub waf_config_allows_fallback : Bytes → Bool
waf_config_allows_fallback config =
    if not (looks_like_json (trim config))
    then false
    else if has_configured_identity config
    then false
    else extract_json_bool_value config (codes "allow_fallback") false

-- The replies that name a product.
abbrev pub names_product : Bytes → Bool
names_product message =
    equal message (codes "blocked by modsecurity") || equal message (codes "blocked by kubeWAF")

module _ (f : Floats) (strtod : Bytes → Option f.Double) where
  -- The defaults of `WafTelemetryOptions`
  abbrev pub telemetry_defaults : TelemetryOptions f.Double
  telemetry_defaults = record {
    mode = [];
    traces_enabled = false;
    sample_rate = f.divide (f.of_ℕ 1) (f.of_ℕ 4);
    sample_disruptive = f.of_ℕ 1;
    redact = true;
    include_match_data = false;
  }

  abbrev traces_options : TelemetryOptions f.Double → Bytes → TelemetryOptions f.Double
  traces_options o traces =
      let number = extract_json_number_value f strtod traces in
      record o {
        traces_enabled = extract_json_bool_value traces (codes "enabled") false;
        sample_rate = number (codes "sample_rate") o.sample_rate;
        sample_disruptive = number (codes "sample_disruptive") o.sample_disruptive;
        redact = extract_json_bool_value traces (codes "redact") true;
        include_match_data = extract_json_bool_value traces (codes "include_match_data") false;
      }

  -- `fillTelemetryOptions`
  unfoldable pub fill_telemetry_options : Bytes → TelemetryOptions f.Double
  fill_telemetry_options config =
      let read : TelemetryOptions f.Double =
        elim (extract_json_object_slice config (codes "telemetry")) [
          | none ↦ telemetry_defaults
          | some tel ↦
              let o = record telemetry_defaults {
                mode = extract_json_string_value tel (codes "mode");
              } in
              elim (extract_json_object_slice tel (codes "traces")) [
                | none ↦ o
                | some traces ↦ traces_options o traces
              ]
        ] in
      if looks_like_json (trim config) then read else telemetry_defaults

  -- The options before the look at the identity.
  unfoldable pub read_plugin_options : Bytes → PluginOptions f.Double
  read_plugin_options config = record {
    metrics = fill_metric_options config;
    block = fill_block_options config;
    telemetry = fill_telemetry_options config;
    mode = extract_json_string_value config (codes "mode");
    config_id = extract_json_string_value config (codes "config_id");
    allow_fallback = extract_json_bool_value config (codes "allow_fallback") false;
    fullwidth_normalize = fill_transform_options config;
  }

  -- What an operator's identity forces.
  unfoldable pub harden : Bytes → PluginOptions f.Double → PluginOptions f.Double
  harden config o =
      let dual_explicit =
        contains config (codes "\"dual_prefix\"")
        || contains config (codes "\"metrics_dual_prefix\"") in
      record o {
        allow_fallback = false;
        block = record o.block {
          message = if names_product o.block.message then codes "Forbidden" else o.block.message;
        };
        metrics = record o.metrics {
          dual_prefix = if dual_explicit then o.metrics.dual_prefix else true;
        };
      }

  -- The defaults of `WafPluginOptions`
  abbrev pub plugin_defaults : PluginOptions f.Double
  plugin_defaults = record {
    metrics = record {
      labels = [];
      enabled = true;
      per_rule_id = false;
      rule_tags = false;
      dual_prefix = false;
    };
    block = block_defaults;
    telemetry = telemetry_defaults;
    mode = [];
    config_id = [];
    allow_fallback = false;
    fullwidth_normalize = true;
  }

  -- `parseWafPluginOptions`, which never fails
  unfoldable pub parse_waf_plugin_options : Bytes → PluginOptions f.Double
  parse_waf_plugin_options config =
      let o = read_plugin_options config in
      if not (looks_like_json (trim config))
      then plugin_defaults
      else if has_kubewaf_identity config (some o)
      then harden config o
      else o
