-- ===== src/Config/Parse/Operator.antt =====
-- Configurations that name the operator, as texts.
use modsecurity_proxy_wasm.Base.{
  ◌≡◌, refl, ap, ◌∙◌, ◌⊎◌, inl, inr, true, false, [], ◌∷◌, ◌++◌, Bool-cases, arith, some,
}
use modsecurity_proxy_wasm.Text.{
  Bytes, codes, equal, is_empty, is_space, starts_with, trim, trim_start, trim_end, search,
  split_at,
}
use modsecurity_proxy_wasm.Escape.{read_string}
use modsecurity_proxy_wasm.Config.Json.{
  looks_like_json, extract_json_string_value, value_text, quoted,
}
use modsecurity_proxy_wasm.Config.Parse.{has_configured_identity}

-- No occurrence of `p` in `s ++ t` begins in `s`.
abbrev pub NotBefore : Bytes → Bytes → Bytes → Type 0
NotBefore p [] t = Unit
NotBefore p (c ∷ s) t = (starts_with p (c ∷ (s ++ t)) ≡ false) × NotBefore p s t

search-NotBefore : (p s t : Bytes) → NotBefore p s t → search p (s ++ t) ≡ search p t
unfolding search
search-NotBefore p [] t h = refl
search-NotBefore p (c ∷ s) t h = rw h.0 (search-NotBefore p s t h.1)

-- The text is an opening brace, some text and the member, whose key stands nowhere in front of it.
abbrev pub FirstIs : Bytes → Bytes → Bytes → Type 0
FirstIs key member config =
    (front : Bytes) × ((rest : Bytes) × ((config ≡ b'{' ∷ (front ++ (member ++ rest)))
        × NotBefore (quoted key) front (member ++ rest)))

-- The first `"mode"` of the text is the key of the value `kubewaf`, or the first `"config_id"` that
-- of a value that begins with `kubewaf/`.
abbrev pub IsOperator : Bytes → Type 0
IsOperator config =
    FirstIs (codes "mode") (codes "\"mode\":\"kubewaf\"") config
    ⊎ FirstIs (codes "config_id") (codes "\"config_id\":\"kubewaf/") config

trim_end-brace : (s : Bytes) → trim_end (b'{' ∷ s) ≡ b'{' ∷ trim_end s
unfolding trim_end is_space
trim_end-brace s = elim (Bool-cases (is_empty (trim_end s))) [
  | inl e ↦ rw e refl
  | inr n ↦ rw n refl
]

brace_json : (s : Bytes) → looks_like_json (trim (b'{' ∷ s)) ≡ true
unfolding looks_like_json trim_start is_space starts_with
brace_json s = rw (trim_end-brace s, trim_end-brace (trim_end s)) refl

mode_found :
    (front rest : Bytes)
    → NotBefore (quoted (codes "mode")) front (codes "\"mode\":\"kubewaf\"" ++ rest)
    → search (quoted (codes "mode")) (b'{' ∷ (front ++ (codes "\"mode\":\"kubewaf\"" ++ rest)))
      ≡ some (codes "\"mode\":\"kubewaf\"" ++ rest)
unfolding search starts_with
mode_found front rest h =
    search-NotBefore (quoted (codes "mode")) front (codes "\"mode\":\"kubewaf\"" ++ rest) h

mode_text :
    (front rest : Bytes)
    → NotBefore (quoted (codes "mode")) front (codes "\"mode\":\"kubewaf\"" ++ rest)
    → extract_json_string_value
        (b'{' ∷ (front ++ (codes "\"mode\":\"kubewaf\"" ++ rest)))
        (codes "mode")
      ≡ codes "kubewaf"
unfolding extract_json_string_value value_text split_at read_string
mode_text front rest h = rw (mode_found front rest h, extract_json_string_value, value_text) refl

config_id_found :
    (front rest : Bytes)
    → NotBefore (quoted (codes "config_id")) front (codes "\"config_id\":\"kubewaf/" ++ rest)
    → search
        (quoted (codes "config_id"))
        (b'{' ∷ (front ++ (codes "\"config_id\":\"kubewaf/" ++ rest)))
      ≡ some (codes "\"config_id\":\"kubewaf/" ++ rest)
unfolding search starts_with
config_id_found front rest h =
    search-NotBefore (quoted (codes "config_id")) front (codes "\"config_id\":\"kubewaf/" ++ rest) h

config_id_text :
    (front rest : Bytes)
    → NotBefore (quoted (codes "config_id")) front (codes "\"config_id\":\"kubewaf/" ++ rest)
    → starts_with (codes "kubewaf/") (
        extract_json_string_value
          (b'{' ∷ (front ++ (codes "\"config_id\":\"kubewaf/" ++ rest)))
          (codes "config_id"))
      ≡ true
unfolding extract_json_string_value value_text starts_with split_at read_string
config_id_text front rest h =
    rw (config_id_found front rest h, extract_json_string_value, value_text) refl

-- An operator's configuration is recognised.
pub has_configured_identity-IsOperator :
    (config : Bytes) → IsOperator config → has_configured_identity config ≡ true
unfolding has_configured_identity
has_configured_identity-IsOperator config (inl (front, (rest, (e, h)))) =
    ap has_configured_identity e
    ∙ rw (brace_json (front ++ (codes "\"mode\":\"kubewaf\"" ++ rest)), mode_text front rest h)
        (unfold equal in refl)
has_configured_identity-IsOperator config (inr (front, (rest, (e, h)))) =
    ap has_configured_identity e
    ∙ rw
        (
          brace_json (front ++ (codes "\"config_id\":\"kubewaf/" ++ rest)),
          config_id_text front rest h,
        )
        (ground arith)
