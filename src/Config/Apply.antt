-- ===== src/Config/Apply.antt =====
-- src/waf_config.cc: the plugin's configuration applied chunk by chunk, and expanded to one text.
use modsecurity_proxy_wasm.Base.{
  not, ◌||◌, List, [], ◌∷◌, ◌++◌, Option, none, some, if◌then◌else◌, ◌>>=◌, concat, map, drop,
}
use modsecurity_proxy_wasm.Text.{Bytes, codes, is_empty, starts_with, trim}
use modsecurity_proxy_wasm.Config.Json.{looks_like_json, extract_json_string_value}
use modsecurity_proxy_wasm.Config.Directives.{Inflate, load_directive_list, split_directive_lines}
use modsecurity_proxy_wasm.Config.Includes.{
  Catalog, load_chunk, resolve_include_load, Expansion, resolve_include_expand,
}
use modsecurity_proxy_wasm.Config.Batches.{apply_lines}

-- `defaultWafJsonConfig`
abbrev pub default_waf_json_config : Bytes
default_waf_json_config =
    codes
      "{\n  \"directives_map\": {\n    \"default\": [\n      \"Include @kubewaf-defaults\",\n      \"Include @demo-conf\",\n      \"SecDebugLogLevel 9\",\n      \"SecRuleEngine On\"\n    ]\n  },\n  \"default_directives\": \"default\"\n}"

unfoldable pub default_profile : Bytes → Bytes
default_profile json =
    let profile = extract_json_string_value json (codes "default_directives") in
    if is_empty profile then codes "default" else profile

module _ {S : Type 0} (z : Inflate) (catalog : Catalog)
    (loader : Bytes → Bytes → S → Option S) where
  -- `applyJsonConfig`; a failure stands as `none`.
  unfoldable pub apply_json_config : Bytes → S → Option S
  apply_json_config json rules = do
    directives ← load_directive_list z json (default_profile json)
    loaded ←
        apply_lines (load_chunk catalog loader) (resolve_include_load catalog loader)
          (concat (map split_directive_lines directives)) (record { rules = rules; seen = [] })
    some loaded.rules

  -- `applyWafConfiguration`
  unfoldable pub apply_waf_configuration : Bytes → S → Option S
  apply_waf_configuration config rules =
      let trimmed = trim config in
      if is_empty trimmed
      then none
      else if not (looks_like_json trimmed)
      then loader (codes "plain-config") trimmed rules
      else apply_json_config trimmed rules

module _ (z : Inflate) (catalog : Catalog) where
  -- The loop of `expandJsonConfig`, for a trimmed line and for all.
  unfoldable pub expand_line : Bytes → Expansion → Option Expansion
  expand_line line x =
      if is_empty line || starts_with (codes "#") line
      then some x
      else if starts_with (codes "Include ") line
      then resolve_include_expand catalog (trim (drop 8 line)) x
      else some (record x { out = x.out ++ (line ++ b'\n' ∷ []) })

  unfoldable pub expand_lines : List Bytes → Expansion → Option Expansion
  expand_lines [] x = some x
  expand_lines (line ∷ lines) x = do x' ← expand_line (trim line) x; expand_lines lines x'

  -- `expandJsonConfig`, which fails where there is no text.
  unfoldable pub expand_json_config : Bytes → Option Bytes
  expand_json_config json = do
    directives ← load_directive_list z json (default_profile json)
    x ← expand_lines directives (record { out = []; seen = [] })
    if is_empty x.out then none else some x.out

  -- `expandWafConfiguration`
  unfoldable pub expand_waf_configuration : Bytes → Option Bytes
  expand_waf_configuration config =
      let trimmed = trim config in
      if is_empty trimmed
      then none
      else if not (looks_like_json trimmed)
      then some trimmed
      else expand_json_config trimmed
