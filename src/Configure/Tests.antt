-- ===== src/Configure/Tests.antt =====
-- The theorems on the start of the plugin and on its phrase files at concrete inputs.
use modsecurity_proxy_wasm.Base.{
  ℕ, suc, inl, drop, ◌/◌, ◌≡◌, ◌⊎◌, refl, false, [], ◌∷◌, ◌++◌, none, some, ltb, leb, ◌||◌,
}
use modsecurity_proxy_wasm.Text.{
  Bytes, codes, equal, starts_with, ends_with, trim_start, trim_end, is_space, search, split_at,
  skip_while, contains, find_in,
}
use modsecurity_proxy_wasm.Escape.{read_string}
use modsecurity_proxy_wasm.Config.Json.{
  looks_like_json, extract_json_string_value, value_text, scan_from, scan_char,
}
use modsecurity_proxy_wasm.Config.Batches.{
  is_file_phrase_op, line_requests_chain, flush_inline, flush_if, load_plain, load_line, load_lines,
  apply_lines,
}
use modsecurity_proxy_wasm.Config.Apply.{
  default_profile, apply_json_config, apply_waf_configuration,
}
use modsecurity_proxy_wasm.Telemetry.{Floats}
use modsecurity_proxy_wasm.Metrics.{MetricHost}
use modsecurity_proxy_wasm.Stream.{is_some}
use modsecurity_proxy_wasm.Config.Includes.{Catalog, load_chunk}
use modsecurity_proxy_wasm.Config.Directives.{
  load_directive_list, extract_directive_array, extract_directive_map_string,
  find_directives_map_profile_value, items_from, item_round, split_directive_lines, split_lines,
  keep_lines,
}
use modsecurity_proxy_wasm.Config.DataFiles.{
  Files, assign, parse_data_files, extract_data_files_object, decode_files,
}
use modsecurity_proxy_wasm.Config.Parse.{plugin_defaults, has_configured_identity}
use modsecurity_proxy_wasm.Configure.{RuleSets, load_rule_chunk, read_plugin_config}
use modsecurity_proxy_wasm.Configure.Handler.{
  Setting, RootState, is_ready, load_rules, apply_rules, set_up, on_configure,
}
use modsecurity_proxy_wasm.Configure.Closed.{
  IsApplied, IsFallback, on_configure_lem, on_configure-operator, on_configure-is_ready,
}
use modsecurity_proxy_wasm.Vfs.{resolve_data_file}
use modsecurity_proxy_wasm.Vfs.Paths.{resolve_data_file_dir, resolve_data_file-assign}

abbrev no_catalog : Catalog
no_catalog = record { lookup = λ name. none; owasp_assets = [] }

abbrev files : Files
files = (codes "b.data", codes "other") ∷ []

resolve_data_file_dir_example :
    resolve_data_file no_catalog files (codes "/etc" ++ b'/' ∷ codes "b")
    ≡ resolve_data_file no_catalog files (codes "b")
resolve_data_file_dir_example =
    resolve_data_file_dir no_catalog files (codes "/etc") (codes "b") (refl, tt) (refl, tt)

resolve_data_file-assign_example :
    resolve_data_file no_catalog
      (assign (b'b' ∷ []) (codes "x") files)
      (codes "/etc" ++ b'/' ∷ b'b' ∷ [])
    ≡ some (codes "x")
resolve_data_file-assign_example =
    resolve_data_file-assign no_catalog files (codes "/etc") (codes "x") b'b' [] (refl, tt)
      (refl, tt)

abbrev pub floats : Floats
floats = record { Double = ℕ; of_ℕ = λ n. n; divide = λ a b. a / b; less = ltb; less_eq = leb }

-- Rules that count the loads.
abbrev pub counted : RuleSets
counted = record { Rules = ℕ; empty = 0; load = λ text ref n. some (suc n) }

abbrev pub setting : Setting
setting = record {
  floats = floats;
  strtod = λ s. none;
  sets = counted;
  zlib = record { ready = λ s. false; outputs = λ s. []; last = λ s. none };
  catalog = no_catalog;
  order = λ fs. fs;
  version_line = [];
  heap = λ n. 0;
  data_failure = λ s. [];
  apply_failure = λ s st. (st, []);
  fallback_failure = λ st. (st, []);
}

abbrev pub host : MetricHost
host = record { define_metric = λ kind name. none; heap_size = 0 }

abbrev pub started : RootState setting
started = record {
  options = plugin_defaults floats (λ s. none);
  metrics = record {
    options = record {
      labels = [];
      enabled = false;
      per_rule_id = false;
      rule_tags = false;
      dual_prefix = false;
    };
    label_suffix = [];
    metric_ids = [];
    tx_count = 0;
    distinct_rule_metrics = 0;
    distinct_tag_metrics = 0;
    calls = [];
  };
  connector_text = [];
  rules = none;
  runtime_files = [];
  logs = [];
}

on_configure-is_ready_example :
    is_ready setting (on_configure setting host 5 (some (codes "SecA ")) started).1
    ≡ (is_some (read_plugin_config 5 (some (codes "SecA "))) || is_ready setting started)
on_configure-is_ready_example = on_configure-is_ready setting host 5 (some (codes "SecA ")) started

abbrev pub plain_config : Bytes
plain_config = codes "SecA"

on_configure_lem_example :
    (config : Bytes) × ((read_plugin_config 4 (some plain_config) ≡ some config)
      × (IsApplied setting config (on_configure setting host 4 (some plain_config) started).1
          ⊎ IsFallback setting config (on_configure setting host 4 (some plain_config) started).1))
unfolding on_configure read_plugin_config set_up parse_data_files looks_like_json starts_with
    trim_end trim_start is_space apply_rules load_rules apply_waf_configuration load_rule_chunk
on_configure_lem_example = on_configure_lem setting host 4 (some plain_config) started refl

abbrev operator_config : Bytes
operator_config = codes "{\"mode\":\"kubewaf\",\"directives_map\":{\"default\":[\"A\"]}}"

on_configure-operator_example :
    IsApplied setting operator_config (on_configure setting host 9 (some operator_config) started).1
unfolding on_configure read_plugin_config has_configured_identity looks_like_json starts_with
    trim_end trim_start is_space equal extract_json_string_value value_text search split_at
    read_string set_up parse_data_files extract_data_files_object decode_files apply_rules
    load_rules apply_waf_configuration apply_json_config load_directive_list extract_directive_array
    extract_directive_map_string find_directives_map_profile_value items_from item_round scan_from
    scan_char skip_while split_directive_lines split_lines keep_lines apply_lines load_lines
    load_line load_plain flush_if flush_inline contains find_in line_requests_chain ends_with
    is_file_phrase_op load_chunk load_rule_chunk default_profile
on_configure-operator_example =
    on_configure-operator setting host 9 (some operator_config) started operator_config refl
      (inl ([], (drop 17 operator_config, (refl, tt)))) refl
