-- ===== src/Configure/Closed.antt =====
-- When `onConfigure` accepts a configuration, and what a stream finds behind it.
use modsecurity_proxy_wasm.Base.{
  ℕ, ◌≡◌, refl, sym, ◌∙◌, ◌⊎◌, inl, inr, Bool, true, false, not, ◌||◌, Option, some, absurd,
  true≢false, Bool-cases, Option-cases, List, [], arith,
}
use modsecurity_proxy_wasm.Text.{Bytes}
use modsecurity_proxy_wasm.Metrics.{MetricHost}
use modsecurity_proxy_wasm.Stream.{is_some}
use modsecurity_proxy_wasm.Config.Parse.{has_configured_identity, waf_config_allows_fallback}
use modsecurity_proxy_wasm.Config.Parse.Fallback.{allow_fallback-parse, operator_lem}
use modsecurity_proxy_wasm.Config.Parse.Operator.{IsOperator, has_configured_identity-IsOperator}
use modsecurity_proxy_wasm.Config.DataFiles.{parse_data_files}
use modsecurity_proxy_wasm.Configure.{LogLine, LoadState, default_rules, read_plugin_config}
use modsecurity_proxy_wasm.Configure.Handler.{
  Setting, RootState, is_ready, load_rules, applied, fall_back, apply_rules, set_up, on_configure,
}

module _ (w : Setting) where
  -- The rules are those of the configuration, all of its chunks loaded.
  abbrev pub IsApplied : Bytes → RootState w → Type 0
  IsApplied config r =
      (logs : List LogLine) × ((loaded : LoadState w.sets.Rules) × ((load_rules w config logs
            ≡ some loaded)
          × (r.rules ≡ some loaded.rules)))

  -- The rules are what an allowed fallback has made of those that a failed load has left.
  abbrev pub IsFallback : Bytes → RootState w → Type 0
  IsFallback config r =
      (waf_config_allows_fallback config ≡ true)
      × ((left : w.sets.Rules) × ((rules : w.sets.Rules) × ((w.sets.load default_rules [] left
                ≡ some rules)
              × (r.rules ≡ some rules))))

  abbrev Outcome : Bytes → Bool × RootState w → Type 0
  Outcome config (ok, r) = ok ≡ true → IsApplied config r ⊎ IsFallback config r

  allows : (a b : Bool) → (a || not b) ≡ false → b ≡ true
  allows a b e = ground arith

  fall_back-Outcome :
      (h : MetricHost) (config : Bytes) (left : LoadState w.sets.Rules) (err : Bytes)
      (r : RootState w)
      → Outcome config (fall_back w h config left err r)
  unfolding fall_back
  fall_back-Outcome h config left err r =
      let forbids = not (waf_config_allows_fallback config) in
      elim (Bool-cases (not r.options.allow_fallback || forbids)) [
        | inl e ↦ rw (e, fall_back) (λ z. absurd (true≢false (sym z)))
        | inr e ↦ elim (Option-cases (w.sets.load default_rules [] left.rules)) [
          | inl f ↦ rw (e, f, fall_back) (λ z. absurd (true≢false (sym z)))
          | inr (rules, f) ↦
              rw (e, f, fall_back)
                (λ _.
                  inr (allows (not r.options.allow_fallback) _ e, (left.rules, (rules, (f, refl)))))
        ]
      ]

  apply_rules-Outcome :
      (h : MetricHost) (config : Bytes) (r : RootState w)
      → Outcome config (apply_rules w h config r)
  unfolding apply_rules
  apply_rules-Outcome h config r = elim (Option-cases (load_rules w config r.logs)) [
    | inr (loaded, e) ↦
        rw (e, apply_rules) (λ _. inl (r.logs, (loaded, (e, unfold applied in refl))))
    | inl n ↦ rw (n, apply_rules) (fall_back-Outcome h config _ _ r)
  ]

  set_up-Outcome :
      (h : MetricHost) (config : Bytes) (r : RootState w) → Outcome config (set_up w h config r)
  unfolding set_up
  set_up-Outcome h config r = elim (Option-cases (parse_data_files w.zlib w.order config)) [
    | inl n ↦ rw (n, set_up) (λ z. absurd (true≢false (sym z)))
    | inr (files, e) ↦ rw (e, set_up) (apply_rules-Outcome h config _)
  ]

  -- Where `onConfigure` returns true, it has read a configuration, and either every chunk of that
  -- configuration was loaded and the rules are the outcome, or the configuration allows the fallback
  -- and the built-in rules were loaded.
  pub on_configure_lem :
      (h : MetricHost) (size : ℕ) (buffer : Option Bytes) (r : RootState w)
      → (on_configure w h size buffer r).0 ≡ true
      → (config : Bytes) × ((read_plugin_config size buffer ≡ some config)
          × (IsApplied config (on_configure w h size buffer r).1
              ⊎ IsFallback config (on_configure w h size buffer r).1))
  unfolding on_configure
  on_configure_lem h size buffer r = elim (Option-cases (read_plugin_config size buffer)) [
    | inl n ↦ rw (n, on_configure) (λ z. absurd (true≢false (sym z)))
    | inr (config, e) ↦ rw (e, on_configure) (λ z. (config, (refl, set_up-Outcome h config _ z)))
  ]

  identity_closes :
      (config : Bytes)
      → has_configured_identity config ≡ true
      → waf_config_allows_fallback config ≡ false
  identity_closes config e =
      sym (allow_fallback-parse w.floats w.strtod config)
      ∙ (operator_lem w.floats w.strtod config e).0

  -- Where the text of the configuration begins with a brace, and its first `"mode"` is the key of the
  -- value `kubewaf` or its first `"config_id"` that of a value that begins with `kubewaf/`, in both
  -- cases without white space around the colon, `onConfigure` returns true only with the rules of that
  -- configuration, all of its chunks loaded, whatever else the text says of a fallback.
  pub on_configure-operator :
      (h : MetricHost) (size : ℕ) (buffer : Option Bytes) (r : RootState w) (config : Bytes)
      → read_plugin_config size buffer ≡ some config
      → IsOperator config
      → (on_configure w h size buffer r).0 ≡ true
      → IsApplied config (on_configure w h size buffer r).1
  unfolding on_configure
  on_configure-operator h size buffer r config e operator =
      let identity = has_configured_identity-IsOperator config operator in
      rw (e, on_configure)
        (λ z. elim (set_up-Outcome h config _ z) [
          | inl ok ↦ ok
          | inr fallback ↦ absurd (true≢false (sym fallback.0 ∙ identity_closes config identity))
        ])

  abbrev Ready : Bool × RootState w → Type 0
  Ready (ok, r) = is_ready w r ≡ true

  fall_back-Ready :
      (h : MetricHost) (config : Bytes) (left : LoadState w.sets.Rules) (err : Bytes)
      (r : RootState w)
      → Ready (fall_back w h config left err r)
  unfolding fall_back
  fall_back-Ready h config left err r =
      elim (Bool-cases (not r.options.allow_fallback || not (waf_config_allows_fallback config))) [
        | inl e ↦ rw (e, fall_back) refl
        | inr e ↦ elim (Option-cases (w.sets.load default_rules [] left.rules)) [
          | inl f ↦ rw (e, f, fall_back) refl
          | inr (rules, f) ↦ rw (e, f, fall_back) refl
        ]
      ]

  apply_rules-Ready :
      (h : MetricHost) (config : Bytes) (r : RootState w) → Ready (apply_rules w h config r)
  unfolding apply_rules
  apply_rules-Ready h config r = elim (Option-cases (load_rules w config r.logs)) [
    | inl n ↦ rw (n, apply_rules) (fall_back-Ready h config _ _ r)
    | inr (loaded, e) ↦ rw (e, apply_rules) (unfold applied in refl)
  ]

  set_up-Ready : (h : MetricHost) (config : Bytes) (r : RootState w) → Ready (set_up w h config r)
  unfolding set_up
  set_up-Ready h config r = elim (Option-cases (parse_data_files w.zlib w.order config)) [
    | inl n ↦ rw (n, set_up) refl
    | inr (files, e) ↦ rw (e, set_up) (apply_rules-Ready h config _)
  ]

  -- Behind `onConfigure` there are an engine and rules exactly where there were some before or where
  -- the configuration could be read, whether or not its options, its data files and its rules were
  -- good, and whether `onConfigure` returned true or false.
  pub on_configure-is_ready :
      (h : MetricHost) (size : ℕ) (buffer : Option Bytes) (r : RootState w)
      → is_ready w (on_configure w h size buffer r).1
        ≡ (is_some (read_plugin_config size buffer) || is_ready w r)
  unfolding on_configure
  on_configure-is_ready h size buffer r = elim (Option-cases (read_plugin_config size buffer)) [
    | inl n ↦ rw (n, on_configure) refl
    | inr (config, e) ↦ rw (e, on_configure) (set_up-Ready h config _)
  ]
