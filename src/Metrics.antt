-- ===== src/Metrics.antt =====
-- src/metrics.cc: `ModSecMetrics`. The calls of the host are kept in `calls`, the newest first.
pub mod Bounds
pub mod Runs
pub mod Labels
use modsecurity_proxy_wasm.Base.{
  ℕ, suc, ◌+◌, ◌%◌, ◌^◌, Bool, true, false, not, ◌&&◌, ◌||◌, List, [], ◌∷◌, ◌++◌, Option, none,
  some, leb, ◌==◌, if◌then◌else◌, ℤ, pos, negsuc, is_pos,
}
use modsecurity_proxy_wasm.Options.{MetricOptions}
use modsecurity_proxy_wasm.Text.{
  Bytes, codes, equal, is_empty, starts_with, contains, is_alnum, decimal_int,
}

pub data Kind : Type 0 where
  counter gauge : Kind

pub data MetricCall : Type 0 where
  define : Kind → Bytes → MetricCall
  increment : ℕ → ℕ → MetricCall
  record_value : ℕ → ℕ → MetricCall

-- What the host answers: the id of a new metric, or `none` where defineMetric is not Ok, and the
-- size of the heap.
pub record MetricHost : Type 0 where
  pub define_metric : Kind → Bytes → Option ℕ
  pub heap_size : ℕ

pub record Metrics : Type 0 where
  pub options : MetricOptions
  pub label_suffix : Bytes
  pub metric_ids : List (Bytes × ℕ)
  pub tx_count : ℕ
  pub distinct_rule_metrics : ℕ
  pub distinct_tag_metrics : ℕ
  pub calls : List MetricCall

abbrev pub max_distinct_rule_metrics : ℕ
max_distinct_rule_metrics = 512

abbrev pub max_distinct_tag_metrics : ℕ
max_distinct_tag_metrics = 128

-- `metric_ids_.find(name)`
pub find_id : Bytes → List (Bytes × ℕ) → Option ℕ
find_id name [] = none
find_id name ((n, id) ∷ ids) = if equal n name then some id else find_id name ids

-- `labelSuffix()`, and the names of the metrics in front of it
abbrev pub legacy : Bytes
legacy = codes "modsecurity_proxy_wasm."

abbrev pub product : Bytes
product = codes "kubewaf_waf."

abbrev pub call : MetricCall → Metrics → Metrics
call c m = record m { calls = c ∷ m.calls }

-- The id of a metric that is defined at its first use; `use_id` is the call made with it.
abbrev with_id : MetricHost → Kind → Bytes → (ℕ → MetricCall) → Metrics → Metrics
with_id h kind name use_id m = elim (find_id name m.metric_ids) [
  | some id ↦ call (use_id id) m
  | none ↦ elim (h.define_metric kind name) [
    | none ↦ call (define kind name) m
    | some id ↦
        call (use_id id)
          (record (call (define kind name) m) { metric_ids = (name, id) ∷ m.metric_ids })
  ]
]

pub increment_counter : MetricHost → Bytes → Metrics → Metrics
unfolding find_id
increment_counter h name m =
    if m.options.enabled then with_id h counter name (λ id. increment id 1) m else m

pub set_gauge : MetricHost → Bytes → ℕ → Metrics → Metrics
unfolding find_id
set_gauge h name value m =
    if m.options.enabled then with_id h gauge name (λ id. record_value id value) m else m

-- A counter under the product prefix, where `dual_prefix` asks for it.
abbrev dual : MetricHost → Bytes → Metrics → Metrics
dual h name m = if m.options.dual_prefix then increment_counter h name m else m

pub increment_core_counter : MetricHost → Bytes → Bytes → Metrics → Metrics
unfolding increment_counter
increment_core_counter h legacy_suffix product_suffix m =
    if m.options.enabled
    then dual h (product ++ (product_suffix ++ m.label_suffix))
        (increment_counter h (legacy ++ (legacy_suffix ++ m.label_suffix)) m)
    else m

pub record_wasm_memory : MetricHost → Metrics → Metrics
unfolding set_gauge
record_wasm_memory h m =
    if m.options.enabled
    then (let m' =
          set_gauge h (legacy ++ (codes "memory.wasm_heap_bytes" ++ m.label_suffix)) h.heap_size
            m in
        if m.options.dual_prefix
        then set_gauge h (product ++ (codes "memory.wasm_heap_bytes" ++ m.label_suffix)) h.heap_size
            m'
        else m')
    else m

-- Whether the metric may be used, and the new count of distinct ones.
pub track_distinct : List (Bytes × ℕ) → Bytes → ℕ → ℕ → Bool × ℕ
track_distinct ids name distinct_count max_distinct = elim (find_id name ids) [
  | some id ↦ (true, distinct_count)
  | none ↦
      if leb max_distinct distinct_count
      then (false, distinct_count)
      else (true, suc distinct_count)
]

-- `trackDistinct` and, where it passes, `incrementCounter`: for a rule, and for a tag.
pub track_rule : MetricHost → Bytes → Metrics → Bool × Metrics
unfolding track_distinct increment_counter
track_rule h name m =
    let (fits, n) =
      track_distinct m.metric_ids name m.distinct_rule_metrics max_distinct_rule_metrics in
    if fits
    then (true, increment_counter h name (record m { distinct_rule_metrics = n }))
    else (false, m)

pub track_tag : MetricHost → Bytes → Metrics → Bool × Metrics
unfolding track_distinct increment_counter
track_tag h name m =
    let (fits, n) =
      track_distinct m.metric_ids name m.distinct_tag_metrics max_distinct_tag_metrics in
    if fits
    then (true, increment_counter h name (record m { distinct_tag_metrics = n }))
    else (false, m)

-- The legacy name, then the product's only where the first one fits and `dual_prefix` is set.
pub track_rule_pair : MetricHost → Bytes → Metrics → Metrics
unfolding track_rule
track_rule_pair h name m =
    let (fits, tracked) = track_rule h (legacy ++ name) m in
    if fits && m.options.dual_prefix then (track_rule h (product ++ name) tracked).1 else tracked

pub track_tag_pair : MetricHost → Bytes → Metrics → Metrics
unfolding track_tag
track_tag_pair h name m =
    let (fits, tracked) = track_tag h (legacy ++ name) m in
    if fits && m.options.dual_prefix then (track_tag h (product ++ name) tracked).1 else tracked

pub count_tx_total : MetricHost → Metrics → Metrics
unfolding increment_core_counter record_wasm_memory
count_tx_total h m =
    let m' = increment_core_counter h (codes "tx.total") (codes "tx.total") m in
    let n = (m'.tx_count + 1) % 2 ^ 64 in
    let m'' = record m' { tx_count = n } in if n % 100 == 0 then record_wasm_memory h m'' else m''

pub count_tx_allowed : MetricHost → Metrics → Metrics
unfolding increment_core_counter
count_tx_allowed h m = increment_core_counter h (codes "tx.allowed") (codes "tx.allowed") m

pub count_response_body_sanitized : MetricHost → Metrics → Metrics
unfolding increment_core_counter
count_response_body_sanitized h m =
    increment_core_counter h (codes "response_body.sanitized") (codes "response_body.sanitized") m

-- Counted also where the statistics are off.
pub count_configure_fallback_rules : MetricHost → Metrics → Metrics
unfolding increment_core_counter
count_configure_fallback_rules h m =
    let on = record m { options = record (m.options) { enabled = true } } in
    let counted =
      increment_core_counter h (codes "configure.fallback_rules") (codes "configure.fallback_rules")
        on in
    record counted { options = record (counted.options) { enabled = m.options.enabled } }

abbrev or_unknown : Bytes → Bytes
or_unknown phase = if is_empty phase then codes "unknown" else phase

abbrev rule_name : Bytes → ℤ → Bytes → Bytes → Bytes
rule_name name rule_id phase suffix =
    name ++ (decimal_int rule_id ++ (codes "_phase=" ++ (phase ++ suffix)))

-- An empty phase stands for a null pointer too.
pub count_tx_interruption : MetricHost → Bytes → ℤ → Metrics → Metrics
unfolding increment_counter track_rule_pair
count_tx_interruption h p rule_id m =
    let phase = or_unknown p in
    let suffix = m.label_suffix in
    let counted =
      dual h (product ++ (codes "tx.interruptions_phase=" ++ (phase ++ suffix))) (
        increment_counter h (legacy ++ (codes "tx.interruptions_phase=" ++ (phase ++ suffix))) m) in
    if m.options.enabled
    then if m.options.per_rule_id && is_pos rule_id
      then track_rule_pair h (rule_name (codes "tx.interruptions_ruleid=") rule_id phase suffix)
          counted
      else counted
    else m

unfoldable pub phase_name_from_rule : ℤ → Bytes
phase_name_from_rule (negsuc n) = codes "unknown"
phase_name_from_rule (pos n) =
    if n == 0
    then codes "http_request_headers"
    else if n == 1
    then codes "http_request_body"
    else if n == 2
    then codes "http_response_headers"
    else if n == 3
    then codes "http_response_body"
    else if n == 4
    then codes "http_logging"
    else codes "unknown"

pub is_interesting_rule_tag : Bytes → Bool
unfolding starts_with
is_interesting_rule_tag tag =
    not (is_empty tag)
    && (starts_with (codes "attack-") tag
        || starts_with (codes "OWASP_CRS") tag
        || starts_with (codes "paranoia-level") tag
        || starts_with (codes "kubewaf") tag
        || starts_with (codes "kubewaf/") tag)

sanitize_chars : Bytes → Bytes
unfolding is_alnum
sanitize_chars [] = []
sanitize_chars (c ∷ s) =
    let rest = sanitize_chars s in
    if is_alnum c || c == b'-' || c == b'_' || c == b'.'
    then c ∷ rest
    else if c == b'/'
    then b'-' ∷ rest
    else rest

pub sanitize_tag_for_metric : Bytes → Bytes
unfolding sanitize_chars
sanitize_tag_for_metric tag = or_unknown (sanitize_chars tag)

abbrev severity_name : Bytes → Bytes → ℤ → Bytes → Bytes
severity_name name phase severity suffix =
    name ++ (phase ++ (codes "_severity=" ++ (decimal_int severity ++ suffix)))

abbrev tag_name : Bytes → Bytes → Bytes → Bytes
tag_name tag phase suffix =
    codes "rule.matches_tag="
    ++ (sanitize_tag_for_metric tag ++ (codes "_phase=" ++ (phase ++ suffix)))

-- One round of the loop over the tags.
pub count_tag : MetricHost → Bytes → Bytes → Metrics → Metrics
unfolding is_interesting_rule_tag sanitize_tag_for_metric track_tag_pair
count_tag h phase tag m =
    if is_interesting_rule_tag tag
    then track_tag_pair h (tag_name tag phase m.label_suffix) m
    else m

pub count_tags : MetricHost → Bytes → List Bytes → Metrics → Metrics
unfolding count_tag
count_tags h phase [] m = m
count_tags h phase (tag ∷ tags) m = count_tags h phase tags (count_tag h phase tag m)

-- A counter under both prefixes.
abbrev pub count_both : MetricHost → Bytes → Metrics → Metrics
count_both h name m = dual h (product ++ name) (increment_counter h (legacy ++ name) m)

pub count_disruptive : MetricHost → Bytes → ℤ → Metrics → Metrics
unfolding increment_counter
count_disruptive h phase severity m =
    let suffix = m.label_suffix in
    count_both h (severity_name (codes "rule.matches_disruptive_phase=") phase severity suffix)
      (count_both h (codes "rule.matches_disruptive" ++ suffix) m)

-- Unlike for an interruption, the second counter is tried also where the first does not fit.
pub count_rule_id : MetricHost → Bytes → ℤ → Metrics → Metrics
unfolding track_rule
count_rule_id h phase rule_id m =
    let name = rule_name (codes "rule.matches_ruleid=") rule_id phase m.label_suffix in
    let tracked = (track_rule h (legacy ++ name) m).1 in
    if m.options.dual_prefix then (track_rule h (product ++ name) tracked).1 else tracked

pub count_rule_match : MetricHost → ℤ → ℤ → Bool → ℤ → List Bytes → Metrics → Metrics
unfolding increment_counter count_disruptive count_rule_id count_tags phase_name_from_rule
count_rule_match h rule_phase severity disruptive rule_id tags m =
    let phase = phase_name_from_rule rule_phase in
    let suffix = m.label_suffix in
    let matched =
      count_both h (severity_name (codes "rule.matches_phase=") phase severity suffix)
        (count_both h (codes "rule.matches" ++ suffix) m) in
    let blocked = if disruptive then count_disruptive h phase severity matched else matched in
    let named =
      if m.options.per_rule_id && is_pos rule_id
      then count_rule_id h phase rule_id blocked
      else blocked in
    if m.options.enabled
    then if m.options.rule_tags then count_tags h phase tags named else named
    else m

unfoldable pub is_reserved_identity_key : Bytes → Bool
unfolding equal
is_reserved_identity_key k =
    equal k (codes "waf_namespace")
    || equal k (codes "waf_name")
    || equal k (codes "engine")
    || equal k (codes "owner")

abbrev pub frags : List Bytes
frags =
    codes "_waf_namespace="
    ∷ codes "_waf_name="
    ∷ codes "_engine="
    ∷ codes "_owner="
    ∷ codes "_phase="
    ∷ codes "_ruleid="
    ∷ codes "_severity="
    ∷ codes "_tag="
    ∷ []

abbrev pub composed : Bytes → Bytes → Bytes
composed k v = b'_' ∷ (k ++ (b'=' ∷ v))

unfoldable pub any_frag : List Bytes → Bytes → Bytes → Bool
any_frag [] k v = false
any_frag (f ∷ fs) k v = contains (composed k v) f || contains k f || contains v f || any_frag fs k v

unfoldable pub extra_label_unsafe : Bytes → Bytes → Bool
unfolding contains
extra_label_unsafe k v = contains k (b'=' ∷ []) || contains v (b'=' ∷ []) || any_frag frags k v

pub suffix_of : List (Bytes × Bytes) → Bytes
unfolding is_reserved_identity_key extra_label_unsafe
suffix_of [] = []
suffix_of ((k, v) ∷ labels) =
    let rest = suffix_of labels in
    if not (is_reserved_identity_key k) && extra_label_unsafe k v
    then rest
    else composed k v ++ rest

pub configure : MetricHost → MetricOptions → Metrics → Metrics
unfolding suffix_of record_wasm_memory
configure h options m =
    let fresh = record m {
      options = options;
      label_suffix = suffix_of options.labels;
      metric_ids = [];
      tx_count = 0;
      distinct_rule_metrics = 0;
      distinct_tag_metrics = 0;
    } in
    if options.enabled then record_wasm_memory h fresh else fresh
