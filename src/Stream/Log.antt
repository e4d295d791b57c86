-- ===== src/Stream/Log.antt =====
-- src/modsecurity_proxy_wasm.cc: the lines that a stream writes to the log, and the record that it
-- exports.
use modsecurity_proxy_wasm.Base.{
  Bool, true, false, not, ◌&&◌, ◌||◌, List, [], ◌∷◌, ◌++◌, if◌then◌else◌, take, ℤ, is_pos,
  is_nonneg, ltb, length,
}
use modsecurity_proxy_wasm.Text.{Bytes, codes, is_empty, equal, decimal_int}
use modsecurity_proxy_wasm.Options.{PluginOptions}
use modsecurity_proxy_wasm.Escape.{json_escape, classic_log_sanitize}
use modsecurity_proxy_wasm.Telemetry.{looks_secret}
use modsecurity_proxy_wasm.Stream.{RuleMessage, ExportMatch}

-- `,"key":"value"` with the value escaped, and the same where the value is not empty
abbrev pub text_member : Bytes → Bytes → Bytes
text_member key value = codes ",\"" ++ (key ++ (codes "\":\"" ++ (json_escape value ++ codes "\"")))

abbrev pub opt_member : Bytes → Bytes → Bytes
opt_member key value = if is_empty value then [] else text_member key value

abbrev pub int_member : Bytes → ℤ → Bytes
int_member key value = codes ",\"" ++ (key ++ (codes "\":" ++ decimal_int value))

abbrev pub bool_text : Bool → Bytes
bool_text b = if b then codes "true" else codes "false"

abbrev pub disruptive_member : Bool → Bytes
disruptive_member b = codes ",\"disruptive\":" ++ bool_text b

is_exported_label : Bytes → Bool
unfolding equal
is_exported_label k =
    equal k (codes "waf_namespace") || equal k (codes "waf_name") || equal k (codes "engine")

unfoldable pub label_members : List (Bytes × Bytes) → Bytes
unfolding is_exported_label json_escape
label_members [] = []
label_members ((k, v) ∷ labels) =
    let rest = label_members labels in
    if is_exported_label k then text_member (json_escape k) v ++ rest else rest

-- The classic tail of a line: [id "N"] [msg "..."].
abbrev pub classic_tail : ℤ → Bytes → Bytes
classic_tail rule_id msg =
    if is_pos rule_id && not (is_empty msg)
    then codes " [id \""
      ++ (decimal_int rule_id
          ++ (codes "\"] [msg \"" ++ (classic_log_sanitize msg 180 ++ codes "\"]")))
    else []

abbrev pub matched_members : Bytes → Bytes → Bytes → Bytes
matched_members msg match_data match =
    opt_member (codes "msg") (take 256 msg)
    ++ (opt_member (codes "data") (take 180 match_data)
        ++ opt_member (codes "match") (take 180 match))

-- `logRuleMatchJson`
unfoldable pub rule_match_line : RuleMessage → Bytes
unfolding json_escape classic_log_sanitize decimal_int
rule_match_line m =
    codes
      "{\"component\":\"modsecurity-proxy-wasm\",\"event\":\"rule_match\",\"engine\":\"modsecurity\""
    ++ (int_member (codes "id") m.rule_id
        ++ (int_member (codes "rule_id") m.rule_id
            ++ (int_member (codes "phase") m.phase
                ++ (int_member (codes "severity") m.severity
                    ++ (disruptive_member m.is_disruptive
                        ++ (matched_members m.message m.match_data m.match
                            ++ (codes "}" ++ classic_tail m.rule_id m.message)))))))

-- What identifies the stream in a line.
pub record Identity : Type 0 where
  pub request_id : Bytes
  pub method : Bytes
  pub path : Bytes
  pub client_ip : Bytes

-- `logStructuredEvent`
unfoldable pub structured_event :
    {D : Type 0}
    → PluginOptions D
    → Identity
    → Bytes
    → ℤ
    → ℤ
    → Bytes
    → ℤ
    → Bool
    → Bytes
    → Bytes
    → Bytes
    → Bytes
    → Bytes
unfolding json_escape classic_log_sanitize decimal_int label_members
structured_event o i event rule_id phase phase_name severity disruptive msg tags_csv match_data
      match =
    codes "{\"component\":\"modsecurity-proxy-wasm\",\"event\":\""
    ++ (event
        ++ (codes "\",\"engine\":\"modsecurity\""
            ++ (opt_member (codes "config_id") o.config_id
                ++ (opt_member (codes "mode") o.mode
                    ++ (label_members o.metrics.labels
                        ++ (opt_member (codes "request_id") i.request_id
                            ++ (opt_member (codes "method") i.method
                                ++ (opt_member (codes "path") (take 256 i.path)
                                    ++ (opt_member (codes "client_ip") i.client_ip
                                        ++ ((if is_pos rule_id
                                              then int_member (codes "id") rule_id
                                                ++ int_member (codes "rule_id") rule_id
                                              else [])
                                            ++ ((if is_nonneg phase
                                                  then int_member (codes "phase") phase
                                                  else [])
                                                ++ (opt_member (codes "phase_name") phase_name
                                                    ++ ((if is_nonneg severity
                                                          then int_member (codes "severity")
                                                            severity
                                                          else [])
                                                        ++ (disruptive_member disruptive
                                                            ++ (matched_members msg match_data match
                                                            ++ (opt_member (codes "tags")
                                                            (take 256 tags_csv)
                                                            ++ (codes "}"
                                                            ++ classic_tail rule_id
                                                            msg)))))))))))))))))

-- The tags joined by commas, up to the one that takes the text past 200 bytes.
join_tags : Bytes → List Bytes → Bytes
join_tags csv [] = csv
join_tags csv (t ∷ tags) =
    let csv' = (if is_empty csv then [] else csv ++ b',' ∷ []) ++ t in
    let rest = join_tags csv' tags in if ltb 200 (length csv') then csv' else rest

unfoldable pub tags_csv : List Bytes → Bytes
unfolding join_tags
tags_csv tags = join_tags [] tags

-- One element of "matches".
match_object : Bool → ExportMatch → Bytes
unfolding equal json_escape decimal_int looks_secret
match_object include_match_data m =
    codes "{\"event\":\""
    ++ ((if equal m.event (codes "tx_interrupt")
          then codes "waf.tx_interrupt"
          else codes "waf.rule_match")
        ++ (codes "\""
            ++ ((if is_pos m.rule_id then int_member (codes "rule_id") m.rule_id else [])
                ++ (opt_member (codes "phase") m.phase
                    ++ ((if is_nonneg m.severity
                          then int_member (codes "severity") m.severity
                          else [])
                        ++ (disruptive_member m.disruptive
                            ++ (opt_member (codes "msg") m.msg
                                ++ ((if include_match_data
                                        && not (is_empty m.match_data)
                                        && not (looks_secret m.match_data)
                                      then text_member (codes "data") m.match_data
                                      else [])
                                    ++ codes "}"))))))))

match_objects : Bool → Bool → List ExportMatch → Bytes
unfolding match_object
match_objects include_match_data first [] = []
match_objects include_match_data first (m ∷ ms) =
    (if first then [] else codes ",")
    ++ (match_object include_match_data m ++ match_objects include_match_data false ms)

-- The text that `maybeAnnotateExport` sets as kubewaf.event.
unfoldable pub rollup :
    {D : Type 0} → PluginOptions D → Bool → Bytes → Bytes → Bytes → List ExportMatch → Bytes
unfolding json_escape label_members match_objects
rollup o interrupted action last_phase client_ip matches =
    codes "{\"interrupted\":"
    ++ (bool_text interrupted
        ++ (text_member (codes "action") action
            ++ (opt_member (codes "phase") last_phase
                ++ (opt_member (codes "config_id") o.config_id
                    ++ (label_members o.metrics.labels
                        ++ ((if not o.telemetry.redact
                              then opt_member (codes "client.address") client_ip
                              else [])
                            ++ (codes ",\"matches\":["
                                ++ (match_objects o.telemetry.include_match_data true matches
                                    ++ codes "]}"))))))))
