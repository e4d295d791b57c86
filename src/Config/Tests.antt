-- ===== src/Config/Tests.antt =====
-- The theorems on the configuration at concrete inputs.
use modsecurity_proxy_wasm.Base.{
  map, concat, ℕ, ◌/◌, ◌≤◌, ◌≡◌, refl, ap, sym, ◌∙◌, some-injective, if-ind, inl, true, List, [],
  ◌∷◌, ◌++◌, Option, none, some, arith, All, ltb, leb, if◌then◌else◌, absurd, none-ne-some,
}
use modsecurity_proxy_wasm.Text.{
  Bytes, codes, trim_start, trim_end, is_space, search, starts_with, split_at, skip_while, equal,
  find_in, contains, ends_with, equal_iff,
}
use modsecurity_proxy_wasm.Escape.{json_escape, read_string, unescape}
use modsecurity_proxy_wasm.Config.Base64.{base64_decode, decode_from, digit, take_char}
use modsecurity_proxy_wasm.Telemetry.{Floats}
use modsecurity_proxy_wasm.Config.Json.{
  looks_like_json, quoted, object_slice_from, extract_json_object_slice, map_from,
  extract_string_map_from_object, extract_json_string_value, value_text, scan_from, scan_char,
}
use modsecurity_proxy_wasm.Config.Json.Fuel.{
  extract_json_object_slice_ends, extract_string_map_from_object_ends,
}
use modsecurity_proxy_wasm.Config.Json.Labels.{
  pairs_text, extract_string_map_from_object-pairs_text,
}
use modsecurity_proxy_wasm.Config.Json.Nested.{extract_json_string_value_nested}
use modsecurity_proxy_wasm.Config.Batches.{
  line_requests_chain, is_file_phrase_op, flush_inline, flush_if, load_include, load_plain,
  load_line, load_lines, apply_lines,
}
use modsecurity_proxy_wasm.Config.Batches.Content.{list_chunk, no_include}
use modsecurity_proxy_wasm.Config.Batches.Chunks.{joined, IsBlock}
use modsecurity_proxy_wasm.Config.Batches.Whole.{closes_chains, kept_lines, apply_lines_chunks}
use modsecurity_proxy_wasm.Config.Directives.{
  Inflate, gzip_inflate, inflate_from, max_inflated_directives_bytes,
  find_directives_map_profile_value, items_from, extract_directive_array,
}
use modsecurity_proxy_wasm.Config.Directives.Fuel.{extract_directive_array_ends}
use modsecurity_proxy_wasm.Config.DataFiles.{
  Files, entries_from, files_round, extract_data_files_object, parse_data_files, decode_files,
  decode_file, raw_key, raw_value, entry, assign, max_data_files_total_inflated_bytes,
}
use modsecurity_proxy_wasm.Config.DataFiles.Fuel.{extract_data_files_object_ends}
use modsecurity_proxy_wasm.Config.DataFiles.Bounds.{parse_data_files_bound, gzip_inflate_bound}
use modsecurity_proxy_wasm.Config.Includes.{
  Asset, Catalog, kubewaf_defaults, load_chunk, load_once, member, resolve_include_load,
  resolve_include_expand,
}
use modsecurity_proxy_wasm.Config.Directives.Lines.{split_directive_lines-nil}
use modsecurity_proxy_wasm.Config.Includes.Once.{IsUnique, apply_lines-IsUnique}
use modsecurity_proxy_wasm.Config.Includes.Agree.{
  Agree, list_lines, resolve_include_load-resolve_include_expand,
}
use modsecurity_proxy_wasm.Config.Parse.{waf_config_allows_fallback, parse_waf_plugin_options}
use modsecurity_proxy_wasm.Config.Parse.Fallback.{allow_fallback-parse}

abbrev floats : Floats
floats = record { Double = ℕ; of_ℕ = λ n. n; divide = λ a b. a / b; less = ltb; less_eq = leb }

abbrev no_number : Bytes → Option ℕ
no_number s = none

-- The configuration of an operator, which asks for a fallback all the same.
abbrev operator_config : Bytes
operator_config = codes "{\"mode\":\"kubewaf\",\"allow_fallback\":true}"

allow_fallback-parse_example :
    (parse_waf_plugin_options floats no_number operator_config).allow_fallback
    ≡ waf_config_allows_fallback operator_config
allow_fallback-parse_example = allow_fallback-parse floats no_number operator_config

extract_json_object_slice_ends_example :
    object_slice_from 20 (quoted (codes "a")) (codes "{\"a\":{}}")
    ≡ some (extract_json_object_slice (codes "{\"a\":{}}") (codes "a"))
extract_json_object_slice_ends_example =
    extract_json_object_slice_ends 20 (codes "{\"a\":{}}") (codes "a") (omega arith)

extract_string_map_from_object_ends_example :
    (pairs : List (Bytes × Bytes)) × ((map_from 20 (codes "\"a\":\"b\"}") ≡ some pairs)
      × (extract_string_map_from_object (codes "{\"a\":\"b\"}") ≡ some pairs))
extract_string_map_from_object_ends_example =
    extract_string_map_from_object_ends 20 (codes "\"a\":\"b\"}") (omega arith)

abbrev labels : List (Bytes × Bytes)
labels = (codes "w", b'"' ∷ codes "x") ∷ (codes "t", []) ∷ []

extract_string_map_from_object-pairs_text_example :
    extract_string_map_from_object (b'{' ∷ pairs_text labels) ≡ some labels
extract_string_map_from_object-pairs_text_example =
    extract_string_map_from_object-pairs_text labels (
      (refl, (((omega arith, (refl, refl)), tt), (inl (omega arith), (inl (omega arith), tt)))),
      ((refl, (((omega arith, (refl, refl)), tt), tt)), tt),
    )

extract_json_string_value_nested_example :
    extract_json_string_value
      (codes "{\"telemetry\":{\"mode\":\""
        ++ (json_escape (codes "M") ++ b'"' ∷ codes "},\"mode\":\"kubewaf\"}"))
      (codes "mode")
    ≡ codes "M"
extract_json_string_value_nested_example =
    extract_json_string_value_nested (codes "M") (codes "},\"mode\":\"kubewaf\"}")
      (inl (omega arith), tt)

-- Two chained rules and an include.
abbrev chained : List Bytes
chained =
    codes "SecRule A \"@rx a\" \"id:1,chain\""
    ∷ codes "SecRule B \"@rx b\""
    ∷ codes "Include @demo-conf"
    ∷ []

apply_lines_chunks_example :
    (blocks : List (List Bytes)) × ((apply_lines list_chunk no_include chained []
        ≡ some (map joined blocks))
      × ((concat blocks ≡ kept_lines chained) × All IsBlock blocks))
unfolding closes_chains line_requests_chain trim_start trim_end is_space starts_with contains
    find_in ends_with
apply_lines_chunks_example = apply_lines_chunks chained refl

abbrev files_config : Bytes
files_config = codes "{\"data_files\":{\"a\":\"YQ==\"}}"

abbrev files_text : Bytes
files_text = codes "\"a\":\"YQ==\"}}"

extract_data_files_object_ends_example :
    entries_from 30 [] files_text ≡ some (extract_data_files_object files_config)
unfolding search starts_with split_at
extract_data_files_object_ends_example =
    extract_data_files_object_ends 30 files_config (codes ":{" ++ files_text)
      (codes ":", files_text) refl refl (omega arith)

abbrev array_config : Bytes
array_config = codes "{\"directives_map\":{\"default\":[\"SecA\"]}}"

extract_directive_array_ends_example :
    items_from 30 6 (codes "\"SecA\"]}}")
    ≡ some (extract_directive_array array_config (codes "default"))
unfolding find_directives_map_profile_value search starts_with split_at skip_while scan_from
    scan_char
extract_directive_array_ends_example =
    extract_directive_array_ends 30 array_config (codes "default") (codes "[\"SecA\"]}}")
      (codes "[\"SecA\"]", codes "}}") refl refl (omega arith)

-- A zlib that accepts every text and gives it back.
abbrev stored : Inflate
stored = record { ready = λ s. true; outputs = λ s. []; last = λ s. some s }

gzip_inflate_bound_example : 3 ≤ max_inflated_directives_bytes
unfolding gzip_inflate inflate_from
gzip_inflate_bound_example = gzip_inflate_bound stored (codes "abc") {text = codes "abc"} refl

abbrev as_listed : Files → Files
as_listed files = files

parse_data_files_bound_example : 1 ≤ max_data_files_total_inflated_bytes
unfolding parse_data_files looks_like_json starts_with trim_end trim_start is_space
    extract_data_files_object search split_at entries_from files_round skip_while entry raw_key
    raw_value decode_files assign decode_file equal extract_json_string_value base64_decode
    decode_from digit take_char gzip_inflate inflate_from value_text read_string unescape
parse_data_files_bound_example =
    parse_data_files_bound stored as_listed files_config {files = (codes "a", codes "a") ∷ []} refl

-- A catalog of one rule file, and no OWASP rules.
abbrev demo : Asset
demo = record { path = codes "@demo-conf"; data_text = codes "SecRuleEngine On" }

abbrev catalog : Catalog
catalog = record {
  lookup = λ name. if equal name (codes "@demo-conf") then some demo else none;
  owasp_assets = [];
}

keeps_path :
    (target : Bytes) (asset : Asset) → catalog.lookup target ≡ some asset → asset.path ≡ target
keeps_path target asset =
    if-ind (λ o. o ≡ some asset → asset.path ≡ target) (equal target (codes "@demo-conf"))
      (λ e s.
        ap (λ a. a.path) (sym (some-injective _ _ s))
        ∙ sym ((equal_iff target (codes "@demo-conf")).0 e))
      (λ _ s. absurd (none-ne-some _ s))

abbrev twice : List Bytes
twice = codes "Include @demo-conf" ∷ codes "SecA" ∷ codes "Include @demo-conf" ∷ []

apply_lines-IsUnique_example : IsUnique (codes "@demo-conf" ∷ [])
unfolding apply_lines load_lines load_line trim_end trim_start is_space starts_with load_include
    flush_inline resolve_include_load equal load_once member load_chunk is_file_phrase_op contains
    find_in flush_if load_plain line_requests_chain ends_with
apply_lines-IsUnique_example =
    apply_lines-IsUnique catalog (keeps_path kubewaf_defaults) twice
      (record { rules = codes "@demo-conf" ∷ []; seen = codes "@demo-conf" ∷ [] }) refl

resolve_include_load-resolve_include_expand_example :
    Agree
      (resolve_include_load catalog list_lines
        (codes "@demo-conf")
        (record { rules = []; seen = [] }))
      (resolve_include_expand catalog (codes "@demo-conf") (record { out = []; seen = [] }))
resolve_include_load-resolve_include_expand_example =
    resolve_include_load-resolve_include_expand catalog keeps_path (codes "@demo-conf")
      (record { rules = []; seen = [] }) (record { out = []; seen = [] })
      (refl, (sym split_directive_lines-nil, inl refl))
