-- ===== src/Config/Json/Nested.antt =====
-- A key of a nested object, where it comes in front of the same key of the configuration.
use modsecurity_proxy_wasm.Base.{◌≡◌, refl, ◌∷◌, ◌++◌, All}
use modsecurity_proxy_wasm.Text.{Bytes, codes, starts_with, search, split_at}
use modsecurity_proxy_wasm.Escape.{json_escape}
use modsecurity_proxy_wasm.Escape.Laws.{IsText, read_string-json_escape}
use modsecurity_proxy_wasm.Config.Json.{extract_json_string_value, value_text}

-- Of a configuration whose first member is a `telemetry` object that begins with a `mode`, of bytes
-- from 0x20 on, newlines, carriage returns and tabs, `extractJsonStringValue` takes that mode for the
-- configuration's own, whatever comes behind it.
pub extract_json_string_value_nested :
    (mode rest : Bytes)
    → All IsText mode
    → extract_json_string_value
        (codes "{\"telemetry\":{\"mode\":\"" ++ (json_escape mode ++ b'"' ∷ rest))
        (codes "mode")
      ≡ mode
unfolding extract_json_string_value value_text search starts_with split_at
extract_json_string_value_nested mode rest text = rw (read_string-json_escape mode rest text) refl
