-- ===== src/Metrics/Runs.antt =====
-- The metrics of a whole life: any calls after `configure`.
use modsecurity_proxy_wasm.Base.{◌≤◌, Bool, List, [], ◌∷◌, ℤ, if-ind, arith}
use modsecurity_proxy_wasm.Options.{MetricOptions}
use modsecurity_proxy_wasm.Text.{Bytes}
use modsecurity_proxy_wasm.Metrics.{
  Metrics, MetricHost, record_wasm_memory, count_tx_total, count_tx_allowed,
  count_response_body_sanitized, count_configure_fallback_rules, count_tx_interruption,
  count_rule_match, configure, suffix_of,
}
use modsecurity_proxy_wasm.Metrics.Bounds.{
  IsBounded, is_rule_series, is_tag_series, series, record_wasm_memory-IsBounded,
  count_tx_total-IsBounded, count_configure_fallback_rules-IsBounded,
  count_tx_interruption-IsBounded, count_rule_match-IsBounded, count_tx_allowed-IsBounded,
  count_response_body_sanitized-IsBounded,
}
use modsecurity_proxy_wasm.Metrics.Labels.{suffix_of-NoForge}

-- The public methods of `ModSecMetrics`.
pub data Op : Type 0 where
  tx_total tx_allowed response_body_sanitized configure_fallback_rules wasm_memory : Op
  tx_interruption : Bytes → ℤ → Op
  rule_match : ℤ → ℤ → Bool → ℤ → List Bytes → Op

pub perform : MetricHost → Op → Metrics → Metrics
perform h tx_total m = count_tx_total h m
perform h tx_allowed m = count_tx_allowed h m
perform h response_body_sanitized m = count_response_body_sanitized h m
perform h configure_fallback_rules m = count_configure_fallback_rules h m
perform h wasm_memory m = record_wasm_memory h m
perform h (tx_interruption phase rule_id) m = count_tx_interruption h phase rule_id m
perform h (rule_match phase severity disruptive rule_id tags) m =
    count_rule_match h phase severity disruptive rule_id tags m

-- Each call with what the host answers while it runs.
pub run : List (MetricHost × Op) → Metrics → Metrics
run [] m = m
run ((h, op) ∷ ops) m = run ops (perform h op m)

perform-IsBounded :
    (h : MetricHost) (op : Op) (m : Metrics) → IsBounded m → IsBounded (perform h op m)
unfolding perform
perform-IsBounded h tx_total m b = count_tx_total-IsBounded h m b
perform-IsBounded h tx_allowed m b = count_tx_allowed-IsBounded h m b
perform-IsBounded h response_body_sanitized m b = count_response_body_sanitized-IsBounded h m b
perform-IsBounded h configure_fallback_rules m b = count_configure_fallback_rules-IsBounded h m b
perform-IsBounded h wasm_memory m b = record_wasm_memory-IsBounded h m b
perform-IsBounded h (tx_interruption phase rule_id) m b =
    count_tx_interruption-IsBounded h phase rule_id m b
perform-IsBounded h (rule_match phase severity disruptive rule_id tags) m b =
    count_rule_match-IsBounded h phase severity disruptive rule_id tags m b

run-IsBounded : (ops : List (MetricHost × Op)) (m : Metrics) → IsBounded m → IsBounded (run ops m)
unfolding run
run-IsBounded [] m b = b
run-IsBounded ((h, op) ∷ ops) m b = run-IsBounded ops _ (perform-IsBounded h op m b)

configure-IsBounded :
    (h : MetricHost) (options : MetricOptions) (m : Metrics) → IsBounded (configure h options m)
unfolding configure
configure-IsBounded h options m =
    let fresh : Metrics = record m {
      options = options;
      label_suffix = suffix_of options.labels;
      metric_ids = [];
      tx_count = 0;
      distinct_rule_metrics = 0;
      distinct_tag_metrics = 0;
    } in
    let bounded : IsBounded fresh = record {
      suffix = suffix_of-NoForge options.labels;
      rules = omega arith;
      rules_cap = omega arith;
      tags = omega arith;
      tags_cap = omega arith;
    } in
    if-ind IsBounded options.enabled (λ _. record_wasm_memory-IsBounded h fresh bounded)
      (λ _. bounded)

-- After `configure` with any options and any calls of the public methods, whatever ids and
-- failures the host answers with, at most 512 metrics are named as a series of one rule and at
-- most 128 as a series of one tag, under the two prefixes together.
pub series-run-configure :
    (h : MetricHost) (options : MetricOptions) (m : Metrics) (ops : List (MetricHost × Op))
    → (series is_rule_series (run ops (configure h options m)).metric_ids ≤ 512)
      × (series is_tag_series (run ops (configure h options m)).metric_ids ≤ 128)
series-run-configure h options m ops =
    let b = run-IsBounded ops _ (configure-IsBounded h options m) in (omega arith, omega arith)
