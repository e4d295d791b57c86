-- ===== src/Metrics/Bounds.antt =====
-- How many series the metrics of rules and of tags may open.
use modsecurity_proxy_wasm.Base.{
  ℕ, ◌+◌, ◌≤◌, ◌≡◌, refl, Bool, true, false, ◌&&◌, ◌||◌, List, [], ◌∷◌, ◌++◌, arith, if◌then◌else◌,
  ℤ, is_pos, if-ind,
}
use modsecurity_proxy_wasm.Options.{MetricOptions}
use modsecurity_proxy_wasm.Text.{Bytes, codes, starts_with}
use modsecurity_proxy_wasm.Metrics.{
  Metrics, MetricHost, legacy, product, increment_counter, set_gauge, increment_core_counter,
  record_wasm_memory, track_rule, track_tag, count_tx_total, count_tx_allowed,
  count_response_body_sanitized, count_configure_fallback_rules, count_tx_interruption, count_tag,
  count_tags, count_both, count_disruptive, count_rule_id, count_rule_match, dual,
  phase_name_from_rule, or_unknown, severity_name, tag_name, rule_name, is_interesting_rule_tag,
  track_rule_pair, track_tag_pair,
}

-- A series for one rule, and for one tag, by the name of its metric.
pub is_rule_series : Bytes → Bool
unfolding starts_with
is_rule_series name =
    starts_with (legacy ++ codes "tx.interruptions_ruleid=") name
    || starts_with (product ++ codes "tx.interruptions_ruleid=") name
    || starts_with (legacy ++ codes "rule.matches_ruleid=") name
    || starts_with (product ++ codes "rule.matches_ruleid=") name

pub is_tag_series : Bytes → Bool
unfolding starts_with
is_tag_series name =
    starts_with (legacy ++ codes "rule.matches_tag=") name
    || starts_with (product ++ codes "rule.matches_tag=") name

-- The number of metrics whose name passes the test.
abbrev pub series : (Bytes → Bool) → List (Bytes × ℕ) → ℕ
series test [] = 0
series test ((name, id) ∷ ids) = (if test name then 1 else 0) + series test ids

-- The labels do not forge the name of a rule's or a tag's series.
abbrev pub NoForge : Bytes → Type 0
NoForge suffix =
    (starts_with (codes "_ruleid=") suffix ≡ false) × (starts_with (codes "_tag=") suffix ≡ false)

-- The counts of distinct metrics are within their limits and cover the series that exist.
pub record IsBounded (m : Metrics) : Type 0 where
  pub suffix : NoForge m.label_suffix
  pub rules : series is_rule_series m.metric_ids ≤ m.distinct_rule_metrics
  pub rules_cap : m.distinct_rule_metrics ≤ 512
  pub tags : series is_tag_series m.metric_ids ≤ m.distinct_tag_metrics
  pub tags_cap : m.distinct_tag_metrics ≤ 128

abbrev IsPlain : Bytes → Type 0
IsPlain name = (is_rule_series name ≡ false) × (is_tag_series name ≡ false)

retimed-IsBounded : (m : Metrics) (n : ℕ) → IsBounded m → IsBounded (record m { tx_count = n })
retimed-IsBounded m n b = ground arith

reset-IsBounded :
    (o : MetricOptions) (m : Metrics) → IsBounded m → IsBounded (record m { options = o })
reset-IsBounded o m b = ground arith

module _ (h : MetricHost) where
  increment_counter-IsBounded :
      (name : Bytes) (m : Metrics)
      → IsPlain name
      → IsBounded m
      → IsBounded (increment_counter h name m)
  unfolding increment_counter
  increment_counter-IsBounded name m p b = ground arith

  set_gauge-IsBounded :
      (name : Bytes) (value : ℕ) (m : Metrics)
      → IsPlain name
      → IsBounded m
      → IsBounded (set_gauge h name value m)
  unfolding set_gauge
  set_gauge-IsBounded name value m p b = ground arith

  track_rule-IsBounded :
      (name : Bytes) (m : Metrics)
      → is_tag_series name ≡ false
      → IsBounded m
      → IsBounded (track_rule h name m).1
  unfolding track_rule
  track_rule-IsBounded name m p b = ground arith

  track_tag-IsBounded :
      (name : Bytes) (m : Metrics)
      → is_rule_series name ≡ false
      → IsBounded m
      → IsBounded (track_tag h name m).1
  unfolding track_tag
  track_tag-IsBounded name m p b = ground arith

  dual-IsBounded :
      (name : Bytes) (m : Metrics) → IsPlain name → IsBounded m → IsBounded (dual h name m)
  dual-IsBounded name m p b =
      if-ind IsBounded m.options.dual_prefix (λ _. increment_counter-IsBounded name m p b) (λ _. b)

  -- A counter under both prefixes, whose name opens no series.
  count_both-IsBounded :
      (name : Bytes) (m : Metrics)
      → IsPlain (legacy ++ name)
      → IsPlain (product ++ name)
      → IsBounded m
      → IsBounded (count_both h name m)
  count_both-IsBounded name m p q b =
      dual-IsBounded (product ++ name) _ q (increment_counter-IsBounded (legacy ++ name) m p b)

  increment_core_counter-IsBounded :
      (x y : Bytes) (m : Metrics)
      → IsPlain (legacy ++ (x ++ m.label_suffix))
      → IsPlain (product ++ (y ++ m.label_suffix))
      → IsBounded m
      → IsBounded (increment_core_counter h x y m)
  unfolding increment_core_counter
  increment_core_counter-IsBounded x y m p q b =
      if-ind IsBounded m.options.enabled
        (λ _. dual-IsBounded _ _ q (increment_counter-IsBounded _ m p b)) (λ _. b)

  pub record_wasm_memory-IsBounded :
      (m : Metrics) → IsBounded m → IsBounded (record_wasm_memory h m)
  unfolding record_wasm_memory is_rule_series is_tag_series
  record_wasm_memory-IsBounded m b =
      if-ind IsBounded m.options.enabled
        (λ _.
          let first =
            set_gauge-IsBounded (legacy ++ (codes "memory.wasm_heap_bytes" ++ m.label_suffix))
              h.heap_size m (refl, refl) b in
          if-ind IsBounded m.options.dual_prefix
            (λ _.
              set_gauge-IsBounded (product ++ (codes "memory.wasm_heap_bytes" ++ m.label_suffix))
                h.heap_size _ (refl, refl) first)
            (λ _. first))
        (λ _. b)

  pub count_tx_total-IsBounded : (m : Metrics) → IsBounded m → IsBounded (count_tx_total h m)
  unfolding count_tx_total is_rule_series is_tag_series
  count_tx_total-IsBounded m b =
      let name = codes "tx.total" in
      let counted = increment_core_counter-IsBounded name name m (refl, refl) (refl, refl) b in
      let timed = retimed-IsBounded _ _ counted in
      if-ind IsBounded _ (λ _. record_wasm_memory-IsBounded _ timed) (λ _. timed)

  pub count_tx_allowed-IsBounded : (m : Metrics) → IsBounded m → IsBounded (count_tx_allowed h m)
  unfolding count_tx_allowed is_rule_series is_tag_series
  count_tx_allowed-IsBounded m b =
      let name = codes "tx.allowed" in
      increment_core_counter-IsBounded name name m (refl, refl) (refl, refl) b

  pub count_response_body_sanitized-IsBounded :
      (m : Metrics) → IsBounded m → IsBounded (count_response_body_sanitized h m)
  unfolding count_response_body_sanitized is_rule_series is_tag_series
  count_response_body_sanitized-IsBounded m b =
      let name = codes "response_body.sanitized" in
      increment_core_counter-IsBounded name name m (refl, refl) (refl, refl) b

  pub count_configure_fallback_rules-IsBounded :
      (m : Metrics) → IsBounded m → IsBounded (count_configure_fallback_rules h m)
  unfolding count_configure_fallback_rules is_rule_series is_tag_series
  count_configure_fallback_rules-IsBounded m b =
      let name = codes "configure.fallback_rules" in
      let on = record m { options = record (m.options) { enabled = true } } in
      reset-IsBounded _ _ (
        increment_core_counter-IsBounded name name on (refl, refl) (refl, refl)
          (reset-IsBounded on.options m b))

  track_rule_pair-IsBounded :
      (name : Bytes) (m : Metrics)
      → is_tag_series (legacy ++ name) ≡ false
      → is_tag_series (product ++ name) ≡ false
      → IsBounded m
      → IsBounded (track_rule_pair h name m)
  unfolding track_rule_pair
  track_rule_pair-IsBounded name m p q b =
      let first = track_rule-IsBounded (legacy ++ name) m p b in
      if-ind IsBounded ((track_rule h (legacy ++ name) m).0 && m.options.dual_prefix)
        (λ _. track_rule-IsBounded (product ++ name) (track_rule h (legacy ++ name) m).1 q first)
        (λ _. first)

  track_tag_pair-IsBounded :
      (name : Bytes) (m : Metrics)
      → is_rule_series (legacy ++ name) ≡ false
      → is_rule_series (product ++ name) ≡ false
      → IsBounded m
      → IsBounded (track_tag_pair h name m)
  unfolding track_tag_pair
  track_tag_pair-IsBounded name m p q b =
      let first = track_tag-IsBounded (legacy ++ name) m p b in
      if-ind IsBounded ((track_tag h (legacy ++ name) m).0 && m.options.dual_prefix)
        (λ _. track_tag-IsBounded (product ++ name) (track_tag h (legacy ++ name) m).1 q first)
        (λ _. first)

  pub count_tx_interruption-IsBounded :
      (phase : Bytes) (rule_id : ℤ) (m : Metrics)
      → IsBounded m
      → IsBounded (count_tx_interruption h phase rule_id m)
  unfolding count_tx_interruption is_rule_series is_tag_series
  count_tx_interruption-IsBounded phase rule_id m b =
      let counted =
        count_both-IsBounded
          (codes "tx.interruptions_phase=" ++ (or_unknown phase ++ m.label_suffix)) m (refl, refl)
          (refl, refl) b in
      if-ind IsBounded m.options.enabled
        (λ _.
          if-ind IsBounded (m.options.per_rule_id && is_pos rule_id)
            (λ _.
              track_rule_pair-IsBounded
                (rule_name (codes "tx.interruptions_ruleid=") rule_id (or_unknown phase)
                  m.label_suffix)
                _ refl refl counted)
            (λ _. counted))
        (λ _. b)

  matches-IsPlain :
      (suffix : Bytes)
      → NoForge suffix
      → IsPlain (legacy ++ (codes "rule.matches" ++ suffix))
        × IsPlain (product ++ (codes "rule.matches" ++ suffix))
  unfolding is_rule_series is_tag_series
  matches-IsPlain suffix f = ((ground arith, ground arith), (ground arith, ground arith))

  count_disruptive-IsBounded :
      (phase : Bytes) (severity : ℤ) (m : Metrics)
      → IsBounded m
      → IsBounded (count_disruptive h phase severity m)
  unfolding count_disruptive is_rule_series is_tag_series
  count_disruptive-IsBounded phase severity m b =
      let first =
        count_both-IsBounded (codes "rule.matches_disruptive" ++ m.label_suffix) m (refl, refl)
          (refl, refl) b in
      count_both-IsBounded
        (severity_name (codes "rule.matches_disruptive_phase=") phase severity m.label_suffix) _
        (refl, refl) (refl, refl) first

  count_rule_id-IsBounded :
      (phase : Bytes) (rule_id : ℤ) (m : Metrics)
      → IsBounded m
      → IsBounded (count_rule_id h phase rule_id m)
  unfolding count_rule_id is_rule_series is_tag_series
  count_rule_id-IsBounded phase rule_id m b =
      let name = rule_name (codes "rule.matches_ruleid=") rule_id phase m.label_suffix in
      let first = track_rule-IsBounded (legacy ++ name) m refl b in
      if-ind IsBounded m.options.dual_prefix
        (λ _. track_rule-IsBounded (product ++ name) _ refl first) (λ _. first)

  count_tag-IsBounded :
      (phase tag : Bytes) (m : Metrics) → IsBounded m → IsBounded (count_tag h phase tag m)
  unfolding count_tag is_rule_series is_tag_series
  count_tag-IsBounded phase tag m b =
      if-ind IsBounded (is_interesting_rule_tag tag)
        (λ _. track_tag_pair-IsBounded (tag_name tag phase m.label_suffix) m refl refl b) (λ _. b)

  count_tags-IsBounded :
      (phase : Bytes) (tags : List Bytes) (m : Metrics)
      → IsBounded m
      → IsBounded (count_tags h phase tags m)
  unfolding count_tags
  count_tags-IsBounded phase [] m b = b
  count_tags-IsBounded phase (tag ∷ tags) m b =
      count_tags-IsBounded phase tags _ (count_tag-IsBounded phase tag m b)

  pub count_rule_match-IsBounded :
      (rule_phase severity : ℤ) (disruptive : Bool) (rule_id : ℤ) (tags : List Bytes) (m : Metrics)
      → IsBounded m
      → IsBounded (count_rule_match h rule_phase severity disruptive rule_id tags m)
  unfolding count_rule_match is_rule_series is_tag_series
  count_rule_match-IsBounded rule_phase severity disruptive rule_id tags m b =
      let plain = matches-IsPlain m.label_suffix b.suffix in
      let phase = phase_name_from_rule rule_phase in
      let first =
        count_both-IsBounded (codes "rule.matches" ++ m.label_suffix) m plain.0 plain.1 b in
      let matched =
        count_both-IsBounded
          (severity_name (codes "rule.matches_phase=") phase severity m.label_suffix) _ (refl, refl)
          (refl, refl) first in
      let blocked =
        if-ind IsBounded disruptive (λ _. count_disruptive-IsBounded phase severity _ matched)
          (λ _. matched) in
      let named =
        if-ind IsBounded (m.options.per_rule_id && is_pos rule_id)
          (λ _. count_rule_id-IsBounded phase rule_id _ blocked) (λ _. blocked) in
      if-ind IsBounded m.options.enabled
        (λ _.
          if-ind IsBounded m.options.rule_tags (λ _. count_tags-IsBounded phase tags _ named)
            (λ _. named))
        (λ _. b)
