-- ===== src/Config/Parse/Fallback.antt =====
-- What the parsed options say of a configuration that is recognised as an operator's.
use modsecurity_proxy_wasm.Base.{
  ◌≡◌, refl, ap, ◌∙◌, inl, inr, true, false, Option, some, arith, Bool-cases, &&_split, if-ind,
  Option-cases,
}
use modsecurity_proxy_wasm.Text.{Bytes, codes, equal, trim}
use modsecurity_proxy_wasm.Telemetry.{Floats}
use modsecurity_proxy_wasm.Config.Json.{
  looks_like_json, extract_metric_labels, extract_json_object_slice,
}
use modsecurity_proxy_wasm.Config.Parse.{
  or_none, fill_metric_options, has_configured_identity, has_kubewaf_identity,
  waf_config_allows_fallback, names_product, read_plugin_options, harden, parse_waf_plugin_options,
}

fill_metric_options-labels :
    (config : Bytes)
    → looks_like_json (trim config) ≡ true
    → (fill_metric_options config).labels ≡ or_none (extract_metric_labels config)
unfolding fill_metric_options
fill_metric_options-labels config json =
    elim (Option-cases (extract_json_object_slice config (codes "metrics"))) [
      | inl e ↦ rw (json, e) refl
      | inr (object, e) ↦ rw (json, e) refl
    ]

module _ (f : Floats) (strtod : Bytes → Option f.Double) (config : Bytes) where
  is_json : has_configured_identity config ≡ true → looks_like_json (trim config) ≡ true
  unfolding has_configured_identity
  is_json e = (&&_split (looks_like_json (trim config)) _ e).0

  -- The look at the options adds nothing to the look at the configuration.
  same_identity :
      looks_like_json (trim config) ≡ true
      → has_kubewaf_identity config (some (read_plugin_options f strtod config))
        ≡ has_configured_identity config
  unfolding has_kubewaf_identity read_plugin_options has_configured_identity
  same_identity json = rw (fill_metric_options-labels config json, json) (ground arith)

  -- `onConfigure` asks the parsed options and `wafConfigAllowsFallback` whether a failed
  -- configuration may fall back on built-in rules; for every configuration the two agree.
  pub allow_fallback-parse :
      (parse_waf_plugin_options f strtod config).allow_fallback ≡ waf_config_allows_fallback config
  unfolding parse_waf_plugin_options waf_config_allows_fallback
  allow_fallback-parse = elim (Bool-cases (looks_like_json (trim config))) [
    | inr n ↦ rw n refl
    | inl json ↦ elim (Bool-cases (has_configured_identity config)) [
      | inl e ↦ rw (json, same_identity json, e) (unfold harden in refl)
      | inr e ↦ rw (json, same_identity json, e) (unfold read_plugin_options in refl)
    ]
  ]

  harden_message :
      names_product (harden f strtod config (read_plugin_options f strtod config)).block.message
      ≡ false
  unfolding harden
  harden_message =
      let message = (read_plugin_options f strtod config).block.message in
      if-ind (λ m. names_product m ≡ false) (names_product message) (λ _. unfold equal in refl)
        (λ n. n)

  parse_operator :
      has_configured_identity config ≡ true
      → parse_waf_plugin_options f strtod config
        ≡ harden f strtod config (read_plugin_options f strtod config)
  unfolding parse_waf_plugin_options
  parse_operator e = rw (is_json e, same_identity (is_json e), e) refl

  -- A configuration that hasKubeWafIdentity recognises is read as one without fallback, and the
  -- message of its replies names no product.
  pub operator_lem :
      has_configured_identity config ≡ true
      → ((parse_waf_plugin_options f strtod config).allow_fallback ≡ false)
        × (names_product (parse_waf_plugin_options f strtod config).block.message ≡ false)
  operator_lem e = (
    ap (λ o. o.allow_fallback) (parse_operator e) ∙ (unfold harden in refl),
    ap (λ o. names_product o.block.message) (parse_operator e) ∙ harden_message,
  )
