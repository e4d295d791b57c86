-- ===== src/Configure.antt =====
-- src/modsecurity_proxy_wasm.cc: `onConfigure` of the root context, its log lines and the loader of
-- rule chunks. The engine's rule sets, zlib, the catalog of rule files and strtod are parameters.
pub mod Handler
pub mod Tests
pub mod Closed
use modsecurity_proxy_wasm.Base.{
  ℕ, Bool, true, false, not, ◌&&◌, ◌||◌, List, [], ◌∷◌, ◌++◌, Option, none, some, if◌then◌else◌,
  ◌>>=◌, ltb, ◌==◌, length, map,
}
use modsecurity_proxy_wasm.Text.{Bytes, codes, is_empty, equal, decimal}
use modsecurity_proxy_wasm.Escape.{json_escape}
use modsecurity_proxy_wasm.Telemetry.{Floats}
use modsecurity_proxy_wasm.Options.{PluginOptions}
use modsecurity_proxy_wasm.Metrics.{
  MetricHost, Metrics, configure, count_configure_fallback_rules, record_wasm_memory,
}
use modsecurity_proxy_wasm.Config.Directives.{Inflate}
use modsecurity_proxy_wasm.Config.Includes.{Catalog}
use modsecurity_proxy_wasm.Config.Parse.{parse_waf_plugin_options, waf_config_allows_fallback}
use modsecurity_proxy_wasm.Config.DataFiles.{Files, parse_data_files}
use modsecurity_proxy_wasm.Config.Apply.{default_waf_json_config, apply_waf_configuration}
use modsecurity_proxy_wasm.Vfs.{rule_ref_path}

-- The engine's rule sets: `RulesSet::load` of a text under a reference, `none` where it returns a
-- negative number.
pub record RuleSets : Type 1 where
  pub Rules : Type 0
  pub empty : Rules
  pub load : Bytes → Bytes → Rules → Option Rules

-- A log line, with `LOG_ERROR` or `LOG_WARN`.
pub data LogLine : Type 0 where
  error_line warn_line : Bytes → LogLine

-- `logJson`
abbrev pub log_json : Bool → Bytes → Bytes → LogLine
log_json is_error event fields =
    let text =
      codes "{\"component\":\"modsecurity-proxy-wasm\",\"event\":\""
      ++ (event
          ++ (codes "\"" ++ ((if is_empty fields then [] else b',' ∷ fields) ++ codes "}"))) in
    if is_error then error_line text else warn_line text

abbrev pub text_field : Bytes → Bytes → Bytes
text_field name value = b'"' ∷ (name ++ (codes "\":\"" ++ (json_escape value ++ codes "\"")))

abbrev pub number_field : Bytes → ℕ → Bytes
number_field name n = b'"' ∷ (name ++ (codes "\":" ++ decimal n))

abbrev pub heap_field : ℕ → Bytes
heap_field heap = b',' ∷ number_field (codes "wasm_heap_bytes") heap

-- `logHeapSample`; the empty label stands for a null pointer too.
abbrev pub heap_sample : ℕ → Bytes → Bytes → ℕ → LogLine
heap_sample heap stage label bytes = log_json false (codes "heap_sample") (
    text_field (codes "stage") stage
    ++ (heap_field heap
        ++ ((if is_empty label then [] else b',' ∷ text_field (codes "label") label)
            ++ (if ltb 0 bytes then b',' ∷ number_field (codes "bytes") bytes else []))))

-- `kDefaultRules`
abbrev pub default_rules : Bytes
default_rules =
    codes
      "\nSecRuleEngine On\nSecRequestBodyAccess On\nSecResponseBodyAccess Off\nSecRule REQUEST_HEADERS:Content-Type \"^(?:application(?:/soap\\+|/)|text/)xml\" \\\n     \"id:200000,phase:1,t:none,t:lowercase,pass,nolog,ctl:requestBodyProcessor=XML\"\nSecRule REQUEST_HEADERS:Content-Type \"^application/json\" \\\n     \"id:200001,phase:1,t:none,t:lowercase,pass,nolog,ctl:requestBodyProcessor=JSON\"\n# Basic test rule (XSS-ish) - real CRS provides many more\nSecRule ARGS \"@rx <script\" \"id:1000,phase:2,deny,status:403,msg:'Basic XSS block'\"\n"

-- The connector information of the engine.
unfoldable pub connector : Bytes → Bytes → Bytes
connector config_id mode =
    let product = codes "kubeWAF/modsecurity-proxy-wasm" in
    if not (is_empty config_id)
    then product ++ (codes " (" ++ (config_id ++ codes ")"))
    else if equal mode (codes "kubewaf")
    then product ++ codes " (mode=kubewaf)"
    else codes "modsecurity-proxy-wasm/1.0 (Envoy proxy-wasm-cpp-sdk)"

-- `readPluginConfig`, on the size and what `getBufferBytes` gives.
unfoldable pub read_plugin_config : ℕ → Option Bytes → Option Bytes
read_plugin_config size buffer = if ltb 0 size then buffer else some default_waf_json_config

-- The rules of a load, and the lines that it has logged, the newest first.
pub record LoadState (R : Type 0) : Type 0 where
  pub rules : R
  pub logs : List LogLine

abbrev pub note : {R : Type 0} → LogLine → LoadState R → LoadState R
note line st = record st { logs = line ∷ st.logs }

abbrev newline_to_space : ℕ → ℕ
newline_to_space c = if c == b'\n' || c == b'\r' then b' ' else c

-- `heap n` is the size of the heap when a load has logged `n` lines.
module _ (sets : RuleSets) (heap : ℕ → ℕ) where
  abbrev pub State : Type 0
  State = LoadState sets.Rules

  abbrev sample : Bytes → Bytes → ℕ → State → State
  sample stage label bytes st = note (heap_sample (heap (length st.logs)) stage label bytes) st

  abbrev announce : Bytes → Bytes → State → State
  announce lab text st = sample (codes "rules_loading") lab (length text) (
      note
        (log_json false (codes "rules_loading") (
          text_field (codes "label") lab
          ++ (b','
              ∷ (number_field (codes "bytes") (length text)
                  ++ heap_field (heap (length st.logs))))))
        st)

  abbrev preview : Bytes → Bytes → State → State
  preview lab text st =
      note
        (log_json false (codes "rules_preview") (
          text_field (codes "label") lab
          ++ (b',' ∷ text_field (codes "preview") (map newline_to_space text))))
        st

  abbrev confirm : Bytes → Bytes → State → State
  confirm lab text st = sample (codes "rules_loaded") lab (length text) (
      note
        (log_json false (codes "rules_loaded")
          (text_field (codes "label") lab ++ heap_field (heap (length st.logs))))
        st)

  -- `loadRuleChunk`; a failed load stands as `none`. Inline batches are not logged.
  unfoldable pub load_rule_chunk : Bytes → Bytes → State → Option State
  load_rule_chunk label text st =
      let lab = if is_empty label then codes "(anonymous)" else label in
      let log_progress = not (equal lab (codes "inline-directives")) in
      let announced = if log_progress then announce lab text st else st in
      let ready =
        if log_progress && ltb (length text) 512 then preview lab text announced else announced in
      let loaded : Option State = do
        rules ← sets.load text (rule_ref_path label) ready.rules
        let st' = record ready { rules = rules }
        some (if log_progress then confirm lab text st' else st')
      in if is_empty text then some st else loaded
