-- ===== src/Plugin/Tests.antt =====
-- The theorems on a configured plugin at concrete inputs.
use modsecurity_proxy_wasm.Base.{◌≡◌, refl, true, false, [], ◌∷◌, Option, none, some, ℕ}
use modsecurity_proxy_wasm.Text.{starts_with, trim_start, trim_end, is_space}
use modsecurity_proxy_wasm.Config.Json.{looks_like_json}
use modsecurity_proxy_wasm.Config.DataFiles.{parse_data_files}
use modsecurity_proxy_wasm.Config.Apply.{apply_waf_configuration}
use modsecurity_proxy_wasm.Configure.{load_rule_chunk, read_plugin_config}
use modsecurity_proxy_wasm.Configure.Handler.{
  RootState, load_rules, apply_rules, set_up, on_configure,
}
use modsecurity_proxy_wasm.Configure.Tests
use modsecurity_proxy_wasm.Stream.{Engine}
use modsecurity_proxy_wasm.Stream.Events.{request_body, on_delete, stream}
use modsecurity_proxy_wasm.Stream.Phases.Idle.{GoesOn}
use modsecurity_proxy_wasm.Stream.Phases.{request, logging, runs, total}
use modsecurity_proxy_wasm.Stream.Tests.{engine, host}
use modsecurity_proxy_wasm.Plugin.{
  root_of, accepted_configuration_inspects, unread_configuration_passes,
}

-- The same engine, whatever the rules.
abbrev any_rules : Option ℕ → Engine
any_rules rules = engine true

-- The plugin behind an `onConfigure` that reads four bytes, and behind one that reads none of them.
abbrev configured : RootState Tests.setting
configured = (on_configure Tests.setting Tests.host 4 (some Tests.plain_config) Tests.started).1

abbrev unread : RootState Tests.setting
unread = (on_configure Tests.setting Tests.host 4 none Tests.started).1

accepted_configuration_inspects_example :
    (total
        (runs request)
        (on_delete (root_of Tests.setting any_rules configured) host (
          stream
            (root_of Tests.setting any_rules configured)
            host
            false
            []
            configured.metrics)).effects
      ≡ 1)
    × (total
          (runs logging)
          (on_delete (root_of Tests.setting any_rules configured) host (
            stream
              (root_of Tests.setting any_rules configured)
              host
              false
              []
              configured.metrics)).effects
        ≡ 1)
unfolding on_configure read_plugin_config set_up parse_data_files looks_like_json starts_with
    trim_end trim_start is_space apply_rules load_rules apply_waf_configuration load_rule_chunk
accepted_configuration_inspects_example =
    accepted_configuration_inspects Tests.setting any_rules Tests.host 4 (some Tests.plain_config)
      Tests.started refl host host false []

unread_configuration_passes_example :
    ((on_configure Tests.setting Tests.host 4 none Tests.started).0 ≡ false)
    × (GoesOn
          (root_of Tests.setting any_rules unread)
          host
          true
          ((host, request_body 3 true) ∷ [])
          unread.metrics
        × (((on_delete (root_of Tests.setting any_rules unread) host (
                stream
                  (root_of Tests.setting any_rules unread)
                  host
                  true
                  ((host, request_body 3 true) ∷ [])
                  unread.metrics)).effects
              ≡ [])
            × ((on_delete (root_of Tests.setting any_rules unread) host (
                  stream
                    (root_of Tests.setting any_rules unread)
                    host
                    true
                    ((host, request_body 3 true) ∷ [])
                    unread.metrics)).metrics
                ≡ unread.metrics)))
unfolding read_plugin_config
unread_configuration_passes_example =
    unread_configuration_passes Tests.setting any_rules Tests.host 4 none Tests.started refl refl
      host host true ((host, request_body 3 true) ∷ [])
