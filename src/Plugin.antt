-- ===== src/Plugin.antt =====
-- src/modsecurity_proxy_wasm.cc: the streams of a plugin behind `onConfigure`.
mod Tests
use modsecurity_proxy_wasm.Base.{
  ℕ, ◌≡◌, refl, sym, ap, ◌∙◌, Bool, true, false, ◌||◌, List, [], Option, none, some, absurd,
  true≢false, inl, inr, or_true, Option-cases, arith,
}
use modsecurity_proxy_wasm.Text.{Bytes}
use modsecurity_proxy_wasm.Metrics.{MetricHost}
use modsecurity_proxy_wasm.Configure.{read_plugin_config}
use modsecurity_proxy_wasm.Configure.Handler.{Setting, RootState, is_ready, on_configure}
use modsecurity_proxy_wasm.Configure.Closed.{on_configure_lem, on_configure-is_ready}
use modsecurity_proxy_wasm.Stream.{Engine, Root, Host, is_some}
use modsecurity_proxy_wasm.Stream.Events.{Callback, on_delete, stream}
use modsecurity_proxy_wasm.Stream.Phases.{request, logging, runs, total}
use modsecurity_proxy_wasm.Stream.Phases.Once.{request_and_logging_run_once}
use modsecurity_proxy_wasm.Stream.Phases.Idle.{GoesOn, unready_does_nothing}

-- What a stream reads of the root context. `engine` is libModSecurity with the rules loaded.
abbrev pub root_of : (w : Setting) → (Option w.sets.Rules → Engine) → RootState w → Root
root_of w engine r = record {
  engine = engine r.rules;
  floats = w.floats;
  options = r.options;
  ready = is_ready w r;
}

module _ (w : Setting) (engine : Option w.sets.Rules → Engine) (m : MetricHost) (size : ℕ)
    (buffer : Option Bytes) (before : RootState w) where
  abbrev after : RootState w
  after = (on_configure w m size buffer before).1

  accepted_ready : (on_configure w m size buffer before).0 ≡ true → is_ready w after ≡ true
  accepted_ready ok =
      let (config, (read, _)) = on_configure_lem w m size buffer before ok in
      on_configure-is_ready w m size buffer before ∙ ap (λ o. is_some o || is_ready w before) read

  -- Behind an `onConfigure` that has returned true, every stream that ends has run the engine's
  -- phases 2 and 5 exactly once, whichever callbacks the host left out.
  pub accepted_configuration_inspects :
      (on_configure w m size buffer before).0 ≡ true
      → (h h' : Host) (eos : Bool) (cs : List (Host × Callback))
      → (total
            (runs request)
            (on_delete
              (root_of w engine after)
              h'
              (stream (root_of w engine after) h eos cs after.metrics)).effects
          ≡ 1)
        × (total
              (runs logging)
              (on_delete
                (root_of w engine after)
                h'
                (stream (root_of w engine after) h eos cs after.metrics)).effects
            ≡ 1)
  accepted_configuration_inspects ok h h' eos cs =
      request_and_logging_run_once (root_of w engine after) h h' eos cs after.metrics
        (accepted_ready ok)

  -- Where a new plugin's configuration cannot be read, `onConfigure` returns false, and a stream that
  -- is created all the same passes: `onRequestHeaders` and every callback behind it that returns a
  -- status returns Continue, the engine and the host get no call, and no metric changes.
  pub unread_configuration_passes :
      before.rules ≡ none
      → read_plugin_config size buffer ≡ none
      → (h h' : Host) (eos : Bool) (cs : List (Host × Callback))
      → ((on_configure w m size buffer before).0 ≡ false)
        × (GoesOn (root_of w engine after) h eos cs after.metrics
            × (((on_delete
                    (root_of w engine after)
                    h'
                    (stream (root_of w engine after) h eos cs after.metrics)).effects
                  ≡ [])
                × ((on_delete
                      (root_of w engine after)
                      h'
                      (stream (root_of w engine after) h eos cs after.metrics)).metrics
                    ≡ after.metrics)))
  unfolding on_configure
  unread_configuration_passes new unread h h' eos cs =
      let idle : is_ready w after ≡ false =
        on_configure-is_ready w m size buffer before
        ∙ ap (λ o. is_some o || is_ready w before) unread
        ∙ ap (λ o. is_some o) new in
      (
        rw (unread, on_configure) refl,
        unready_does_nothing (root_of w engine after) h h' eos cs after.metrics idle,
      )
