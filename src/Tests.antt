-- ===== src/Tests.antt =====
-- The theorems on text and on metrics at concrete inputs.
use modsecurity_proxy_wasm.Base.{
  concat, none, ℕ, ◌≤◌, ◌≡◌, refl, inl, inr, true, false, List, [], ◌∷◌, ◌++◌, some, arith, length,
  All, pos,
}
use modsecurity_proxy_wasm.Text.{Bytes, codes, contains, is_space}
use modsecurity_proxy_wasm.Escape.{json_escape, read_string, classic_log_sanitize}
use modsecurity_proxy_wasm.Escape.Laws.{
  IsSafe, json_escape_closes, read_string-json_escape, json_escape_printable,
  classic_log_sanitize-IsSafe,
}
use modsecurity_proxy_wasm.Fullwidth.{normalize_fullwidth}
use modsecurity_proxy_wasm.Fullwidth.Laws.{IsFolded, normalize_fullwidth-IsFolded}
use modsecurity_proxy_wasm.Fullwidth.Complete.{
  Form, raw, upper_hex, lower_hex, written, letters, normalize_fullwidth-written,
}
use modsecurity_proxy_wasm.Config.Batches.{apply_lines}
use modsecurity_proxy_wasm.Config.Batches.Content.{
  list_chunk, no_include, directives_text, apply_lines_lem,
}
use modsecurity_proxy_wasm.Config.Base64.{digit, base64_decode}
use modsecurity_proxy_wasm.Config.Base64.RoundTrip.{base64_encode, base64_decode-base64_encode}
use modsecurity_proxy_wasm.Config.Base64.Errors.{base64_decode-none}
use modsecurity_proxy_wasm.Options.{MetricOptions}
use modsecurity_proxy_wasm.Metrics.{
  MetricHost, Metrics, suffix_of, configure, is_reserved_identity_key, extra_label_unsafe, any_frag,
}
use modsecurity_proxy_wasm.Metrics.Bounds.{is_rule_series, is_tag_series, series, NoForge}
use modsecurity_proxy_wasm.Metrics.Labels.{suffix_of-NoForge}
use modsecurity_proxy_wasm.Metrics.Labels.Forged.{suffix_of_forges}
use modsecurity_proxy_wasm.Metrics.Runs.{Op, tx_total, rule_match, run, series-run-configure}
use Prim.Native.Nat.{min}

-- A text with a quote, a newline and a control byte.
abbrev hostile : Bytes
hostile = b'"' ∷ b'\n' ∷ 7 ∷ []

json_escape_closes_example :
    (read_string false (json_escape hostile ++ b'"' ∷ codes "}")).1 ≡ b'"' ∷ codes "}"
json_escape_closes_example = json_escape_closes hostile (codes "}")

read_string-json_escape_example :
    (read_string false (json_escape (b'"' ∷ b'\n' ∷ []) ++ b'"' ∷ codes "}")).0 ≡ b'"' ∷ b'\n' ∷ []
read_string-json_escape_example =
    read_string-json_escape (b'"' ∷ b'\n' ∷ []) (codes "}")
      (inl (omega arith), (inr (inl refl), tt))

json_escape_printable_example : All (λ b. 0x20 ≤ b) (json_escape hostile)
json_escape_printable_example = json_escape_printable hostile

classic_log_sanitize-IsSafe_example :
    All IsSafe (classic_log_sanitize hostile 2)
    × (length (classic_log_sanitize hostile 2) ≡ min (length hostile) 2)
classic_log_sanitize-IsSafe_example = classic_log_sanitize-IsSafe hostile 2

-- `<a` in fullwidth, the first character percent-encoded.
abbrev fullwidth_tag : List (Form × ℕ)
fullwidth_tag = (upper_hex, b'<') ∷ (raw, b'a') ∷ (lower_hex, b'>') ∷ []

normalize_fullwidth-written_example :
    normalize_fullwidth (written fullwidth_tag) ≡ letters fullwidth_tag
normalize_fullwidth-written_example =
    normalize_fullwidth-written fullwidth_tag
      ((omega arith, omega arith), ((omega arith, omega arith), ((omega arith, omega arith), tt)))

normalize_fullwidth-IsFolded_example :
    IsFolded (normalize_fullwidth (0xEF ∷ 0xBC ∷ 0x9C ∷ b'a' ∷ []))
normalize_fullwidth-IsFolded_example = normalize_fullwidth-IsFolded (0xEF ∷ 0xBC ∷ 0x9C ∷ b'a' ∷ [])

abbrev some_labels : List (Bytes × Bytes)
some_labels = (codes "tier", codes "a_waf") ∷ (codes "rule_id", codes "1") ∷ []

suffix_of-NoForge_example : NoForge (suffix_of some_labels)
suffix_of-NoForge_example = suffix_of-NoForge some_labels

suffix_of_forges_example :
    contains
      (suffix_of ((codes "tier", codes "a" ++ codes "_waf") ∷ (codes "name", codes "b") ∷ []))
      (codes "_waf_name=")
    ≡ true
unfolding extra_label_unsafe is_reserved_identity_key any_frag
suffix_of_forges_example = suffix_of_forges (codes "tier") (codes "a") (codes "b") refl refl refl

-- A host that gives every metric the id of its first letter.
abbrev metric_host : MetricHost
metric_host = record { define_metric = λ kind name. some (length name); heap_size = 65536 }

abbrev metric_options : MetricOptions
metric_options = record {
  labels = some_labels;
  enabled = true;
  per_rule_id = true;
  rule_tags = true;
  dual_prefix = true;
}

abbrev no_metrics : Metrics
no_metrics = record {
  options = metric_options;
  label_suffix = [];
  metric_ids = [];
  tx_count = 0;
  distinct_rule_metrics = 0;
  distinct_tag_metrics = 0;
  calls = [];
}

abbrev some_ops : List (MetricHost × Op)
some_ops =
    (metric_host, tx_total)
    ∷ (metric_host, rule_match (pos 2) (pos 2) true (pos 942100) (codes "attack-sqli" ∷ []))
    ∷ []

series-run-configure_example :
    (series is_rule_series
        (run some_ops (configure metric_host metric_options no_metrics)).metric_ids
      ≤ 512)
    × (series is_tag_series
          (run some_ops (configure metric_host metric_options no_metrics)).metric_ids
        ≤ 128)
series-run-configure_example = series-run-configure metric_host metric_options no_metrics some_ops

-- Two bytes, of which the padded text has four characters.
abbrev some_bytes : Bytes
some_bytes = 0xFF ∷ 0x1F ∷ []

base64_decode-base64_encode_example : base64_decode (base64_encode some_bytes) ≡ some some_bytes
base64_decode-base64_encode_example =
    base64_decode-base64_encode some_bytes (omega arith, (omega arith, tt))

base64_encode_test : base64_encode some_bytes ≡ codes "/x8="
unfolding base64_encode
base64_encode_test = refl

base64_decode-none_example : base64_decode (codes "aG" ++ b'-' ∷ codes "k=") ≡ none
unfolding digit is_space
base64_decode-none_example = base64_decode-none (codes "aG") b'-' (codes "k=") refl refl

-- A comment, a rule, a chain of two rules, an include and another rule.
abbrev some_lines : List Bytes
some_lines =
    codes "# rules"
    ∷ codes " SecRule ARGS a \"id:1,deny\""
    ∷ codes "SecRule ARGS b \"id:2,chain\""
    ∷ codes "SecRule ARGS c \"deny\""
    ∷ codes "Include @owasp_crs"
    ∷ codes "SecAction \"id:3,pass\""
    ∷ []

apply_lines_lem_example :
    (chunks : List Bytes) × ((apply_lines list_chunk no_include some_lines [] ≡ some chunks)
      × (concat chunks ≡ directives_text some_lines))
apply_lines_lem_example = apply_lines_lem some_lines
