-- ===== src/Configure/Handler.antt =====
-- src/modsecurity_proxy_wasm.cc: `onStart` and `onConfigure` of the root context. What a failed load
-- leaves in the engine's rules and in the log, and the texts of errors, are parameters.
use modsecurity_proxy_wasm.Base.{
  ℕ, Bool, true, false, not, ◌||◌, List, [], ◌∷◌, ◌++◌, Option, none, some, if◌then◌else◌, ltb,
  length,
}
use modsecurity_proxy_wasm.Text.{Bytes, codes, is_empty}
use modsecurity_proxy_wasm.Telemetry.{Floats}
use modsecurity_proxy_wasm.Options.{PluginOptions}
use modsecurity_proxy_wasm.Metrics.{
  MetricHost, Metrics, configure, count_configure_fallback_rules, record_wasm_memory,
}
use modsecurity_proxy_wasm.Config.Directives.{Inflate}
use modsecurity_proxy_wasm.Config.Includes.{Catalog}
use modsecurity_proxy_wasm.Config.Parse.{parse_waf_plugin_options, waf_config_allows_fallback}
use modsecurity_proxy_wasm.Config.DataFiles.{Files, parse_data_files}
use modsecurity_proxy_wasm.Config.Apply.{apply_waf_configuration}
use modsecurity_proxy_wasm.Vfs.{set_runtime_data_files}
use modsecurity_proxy_wasm.Configure.{
  RuleSets, LogLine, warn_line, log_json, text_field, number_field, heap_sample, default_rules,
  connector, read_plugin_config, LoadState, load_rule_chunk,
}

-- What the handler uses of code that stands elsewhere: the engine's rule sets, zlib, the catalog of
-- rule files, strtod, the order of a hash map, the version line and the size of the heap after a
-- number of log lines. Of a failure, `apply_failure` and `fallback_failure` give the rules and the
-- log that it leaves, and its text.
pub record Setting : Type 1 where
  pub floats : Floats
  pub strtod : Bytes → Option floats.Double
  pub sets : RuleSets
  pub zlib : Inflate
  pub catalog : Catalog
  pub order : Files → Files
  pub version_line : Bytes
  pub heap : ℕ → ℕ
  pub data_failure : Bytes → Bytes
  pub apply_failure : Bytes → LoadState sets.Rules → LoadState sets.Rules × Bytes
  pub fallback_failure : LoadState sets.Rules → LoadState sets.Rules × Bytes

abbrev count_field : Bytes → ℕ → Bytes
count_field name n = number_field name n ++ codes ","

abbrev flag_field : Bytes → Bool → Bytes
flag_field name b = b'"' ∷ (name ++ (codes "\":" ++ (if b then codes "true," else codes "false,")))

abbrev optional_field : Bytes → Bytes → Bytes
optional_field name value = if is_empty value then [] else text_field name value ++ codes ","

-- The `config_applied` line's fields in front of the size of the heap.
abbrev applied_fields : {D : Type 0} → PluginOptions D → Bytes
applied_fields o =
    optional_field (codes "config_id") o.config_id
    ++ (optional_field (codes "mode") o.mode
        ++ (count_field (codes "metric_labels") (length o.metrics.labels)
            ++ (flag_field (codes "per_rule_id") o.metrics.per_rule_id
                ++ (flag_field (codes "dual_prefix") o.metrics.dual_prefix
                    ++ (flag_field (codes "fullwidth_normalize") o.fullwidth_normalize
                        ++ flag_field (codes "stats") o.metrics.enabled)))))

module _ (w : Setting) where
  -- `ModSecRootContext`: no engine and no rules stand as `none` in `rules`. `connector_text` is what
  -- the engine was given, `runtime_files` are those of src/wasm_vfs.cc; log lines, newest first.
  pub record RootState : Type 0 where
    pub options : PluginOptions w.floats.Double
    pub metrics : Metrics
    pub connector_text : Bytes
    pub rules : Option w.sets.Rules
    pub runtime_files : Files
    pub logs : List LogLine

  -- `modsec_ != nullptr && rules_ != nullptr`, which a stream asks for.
  abbrev pub is_ready : RootState → Bool
  is_ready r = elim r.rules [ none ↦ false | some rules ↦ true ]

  abbrev say : LogLine → RootState → RootState
  say line r = record r { logs = line ∷ r.logs }

  abbrev sample : Bytes → ℕ → RootState → RootState
  sample stage bytes r = say (heap_sample (w.heap (length r.logs)) stage [] bytes) r

  -- A line whose fields end in the size of the heap.
  abbrev report : Bool → Bytes → Bytes → RootState → RootState
  report is_error event fields r =
      say
        (log_json is_error event
          (fields ++ number_field (codes "wasm_heap_bytes") (w.heap (length r.logs))))
        r

  abbrev failed : Bytes → RootState → Bool × RootState
  failed message r =
      (false, say (log_json true (codes "configure_failed") (text_field (codes "error") message)) r)

  -- `onStart`
  unfoldable pub on_start : RootState → Bool × RootState
  on_start r = (true, say (warn_line w.version_line) r)

  -- A failed configuration: the plugin's start fails, or the built-in rules are loaded.
  unfoldable pub fall_back :
      MetricHost → Bytes → LoadState w.sets.Rules → Bytes → RootState → Bool × RootState
  fall_back h config left err r =
      let r' = record r { rules = some left.rules; logs = left.logs } in
      let error = text_field (codes "error") err in
      let warned =
        say
          (log_json false (codes "config_load_failed")
            (error ++ codes ",\"allow_fallback\":true,\"action\":\"load_minimal_builtin\""))
          r' in
      elim (not r.options.allow_fallback || not (waf_config_allows_fallback config)) [
        | true ↦ (
          false,
          report true (codes "config_load_failed") (error ++ codes ",\"fail_closed\":true,") r',
        )
        | false ↦ elim (w.sets.load default_rules [] left.rules) [
          | none ↦
              let (left', err') =
                w.fallback_failure (record { rules = left.rules; logs = warned.logs }) in
              (
                false,
                say
                    (log_json true (codes "fallback_rules_failed")
                      (text_field (codes "error") err'))
                    (record warned { rules = some left'.rules; logs = left'.logs }),
              )
          | some rules ↦
              let loaded = say (log_json false (codes "fallback_rules_loaded") []) warned in
              let counted = sample (codes "fallback_rules_loaded") 0 (record loaded {
                rules = some rules;
                metrics = count_configure_fallback_rules h loaded.metrics;
              }) in
              (true, record counted { metrics = record_wasm_memory h counted.metrics })
        ]
      ]

  -- What follows the load of the configuration's rules.
  unfoldable pub applied : MetricHost → LoadState w.sets.Rules → RootState → RootState
  applied h loaded r =
      let r' = record r { rules = some loaded.rules; logs = loaded.logs } in
      let freed = sample (codes "config_freed") 0 (sample (codes "rules_applied") 0 r') in
      sample (codes "config_applied") 0 (
        report false (codes "config_applied") (applied_fields r.options)
          (record freed { metrics = record_wasm_memory h freed.metrics }))

  -- `applyWafConfiguration` with the loader of chunks, on new rules.
  unfoldable pub load_rules : Bytes → List LogLine → Option (LoadState w.sets.Rules)
  load_rules config logs =
      apply_waf_configuration w.zlib w.catalog (load_rule_chunk w.sets w.heap) config
        (record { rules = w.sets.empty; logs = logs })

  unfoldable pub apply_rules : MetricHost → Bytes → RootState → Bool × RootState
  apply_rules h config r = elim (load_rules config r.logs) [
    | some loaded ↦ (true, applied h loaded r)
    | none ↦
        let (left, err) = w.apply_failure config (record { rules = w.sets.empty; logs = r.logs }) in
        fall_back h config left err r
  ]

  -- The runtime files are installed, and `modsecurity_proxy_wasm_mount_crs_data_files` does nothing.
  unfoldable pub install : Files → RootState → RootState
  install files r =
      let set = record r { runtime_files = set_runtime_data_files files r.runtime_files } in
      let ready =
        if ltb 0 (length files)
        then report false (codes "runtime_data_files_ready")
            (count_field (codes "runtime_data_files") (length files)) set
        else set in
      sample (codes "after_crs_data") 0
        (report false (codes "crs_data_ready") (codes "\"source\":\"runtime_or_catalog\",") ready)

  -- The engine and its rules are created, then the data files are read.
  unfoldable pub set_up : MetricHost → Bytes → RootState → Bool × RootState
  set_up h config r =
      let options = parse_waf_plugin_options w.floats w.strtod config in
      let created = sample (codes "modsec_init") 0 (record r {
        options = options;
        metrics = configure h options.metrics r.metrics;
        connector_text = connector options.config_id options.mode;
        rules = some w.sets.empty;
      }) in
      elim (parse_data_files w.zlib w.order config) [
        | none ↦ failed (w.data_failure config) created
        | some files ↦ apply_rules h config (install files created)
      ]

  -- `onConfigure`, on the size of the configuration and what `getBufferBytes` gives
  unfoldable pub on_configure : MetricHost → ℕ → Option Bytes → RootState → Bool × RootState
  on_configure h size buffer r =
      let started = sample (codes "configure_start") 0 (
        report false (codes "configure_start") (count_field (codes "size") size)
          (say (warn_line w.version_line) r)) in
      elim (read_plugin_config size buffer) [
        | none ↦ failed (codes "Failed to read plugin configuration") started
        | some config ↦ set_up h config (sample (codes "config_read") (length config) started)
      ]
