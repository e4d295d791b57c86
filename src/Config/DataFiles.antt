-- ===== src/Config/DataFiles.antt =====
-- src/waf_config.cc: the phrase files that the configuration carries.
pub mod Bounds
pub mod Fuel
use modsecurity_proxy_wasm.Base.{
  ℕ, suc, zero, ◌+◌, ◌*◌, Bool, true, false, not, ◌&&◌, ◌||◌, List, [], ◌∷◌, ◌++◌, Option, none,
  some, if◌then◌else◌, ◌>>=◌, run_or, ltb, ◌==◌, length,
}
use modsecurity_proxy_wasm.Text.{
  Bytes, codes, is_empty, equal, starts_with, trim, behind, split_at, skip_while,
}
use modsecurity_proxy_wasm.Config.Base64.{base64_decode}
use modsecurity_proxy_wasm.Config.Directives.{Inflate, within, gzip_inflate}
use modsecurity_proxy_wasm.Config.Json.{
  looks_like_json, is_blank_or_comma, extract_json_string_value,
}

-- A map from names to texts.
abbrev pub Files : Type 0
Files = List (Bytes × Bytes)

-- `files[name] = text`
unfoldable pub assign : Bytes → Bytes → Files → Files
assign name text [] = (name, text) ∷ []
assign name text ((n, t) ∷ files) =
    let rest = assign name text files in
    if equal n name then (name, text) ∷ files else (n, t) ∷ rest

-- A key up to its closing quote, with its escapes kept, and the text behind the quote.
unfoldable pub raw_key : Bytes → Option (Bytes × Bytes)
raw_key [] = none
raw_key (c ∷ []) = if c == b'"' then some ([], []) else none
raw_key (c ∷ d ∷ s) = elim (c == b'"') [
  | true ↦ some ([], d ∷ s)
  | false ↦ elim (c == b'\\') [
    | true ↦ do key ← raw_key s; some (c ∷ d ∷ key.0, key.1)
    | false ↦ do key ← raw_key (d ∷ s); some (c ∷ key.0, key.1)
  ]
]

-- A value up to its closing quote: a backslash stands for the character behind it.
unfoldable pub raw_value : Bytes → Option (Bytes × Bytes)
raw_value [] = none
raw_value (c ∷ []) = if c == b'"' then some ([], []) else none
raw_value (c ∷ d ∷ s) = elim (c == b'"') [
  | true ↦ some ([], d ∷ s)
  | false ↦ elim (c == b'\\') [
    | true ↦ do value ← raw_value s; some (d ∷ value.0, value.1)
    | false ↦ do value ← raw_value (d ∷ s); some (c ∷ value.0, value.1)
  ]
]

-- The text behind an opening quote.
abbrev open_quote : Bytes → Option Bytes
open_quote [] = none
open_quote (c ∷ s) = if c == b'"' then some s else none

-- A key and its value, and the text behind them.
unfoldable pub entry : Bytes → Option ((Bytes × Bytes) × Bytes)
entry s = do
  key_text ← open_quote s
  key ← raw_key key_text
  value_text ← open_quote (skip_while (λ c. c == b' ' || c == b'\t' || c == b':') key.1)
  value ← raw_value value_text
  some ((key.0, value.0), value.1)

-- What a round of the loop of `extractDataFilesObject` does: it ends with files or an error, or goes
-- on behind an entry.
pub data FilesRound : Type 0 where
  files_end : Option Files → FilesRound
  files_next : Files → Bytes → FilesRound

abbrev after_entry : Files → Option ((Bytes × Bytes) × Bytes) → FilesRound
after_entry encoded none = files_end none
after_entry encoded (some ((name, text), rest)) = files_next (assign name text encoded) rest

unfoldable pub files_round : Files → Bytes → FilesRound
files_round encoded s =
    let next = skip_while is_blank_or_comma s in
    if starts_with (codes "}") next
    then files_end (some encoded)
    else after_entry encoded (entry next)

-- The loop on fuel; `none` where the fuel runs out, `some none` for an error.
unfoldable pub entries_from : ℕ → Files → Bytes → Option (Option Files)
entries_from zero encoded s = none
entries_from (suc fuel) encoded s = elim (files_round encoded s) [
  | files_end result ↦ some result
  | files_next encoded' rest ↦ entries_from fuel encoded' rest
]

-- `extractDataFilesObject`; an error stands as `none`.
unfoldable pub extract_data_files_object : Bytes → Option Files
extract_data_files_object json = elim (behind (codes "\"data_files\"") json) [
  | none ↦ some []
  | some after_key ↦ do
    brace ← split_at b'{' after_key
    run_or none (entries_from (suc (length brace.1)) [] brace.1)
]

abbrev pub max_data_file_inflated_bytes : ℕ
max_data_file_inflated_bytes = 2 * 1024 * 1024

abbrev pub max_data_files_total_inflated_bytes : ℕ
max_data_files_total_inflated_bytes = 2 * 1024 * 1024

module _ (z : Inflate) where
  -- One payload: base64, and gzip where the encoding says so.
  unfoldable pub decode_file : Bytes → Bytes → Option Bytes
  decode_file encoding text =
      let inflated : Option Bytes = (do bytes ← base64_decode text; gzip_inflate z bytes) in
      if equal encoding (codes "gzip+base64") || equal encoding (codes "gzip")
      then inflated
      else base64_decode text

  -- The loop of `parseDataFiles`, with the sum of the sizes so far.
  unfoldable pub decode_files : Bytes → ℕ → Files → Files → Option Files
  decode_files encoding total out [] = some out
  decode_files encoding total out ((name, text) ∷ encoded) = do
    decoded ← decode_file encoding text
    small ← within max_data_file_inflated_bytes (length decoded) decoded
    kept ← within max_data_files_total_inflated_bytes (total + length small) small
    decode_files encoding (total + length kept) (assign name kept out) encoded

  -- `parseDataFiles`, in the order in which the hash map lists its entries; an error stands as `none`.
  unfoldable pub parse_data_files : (Files → Files) → Bytes → Option Files
  parse_data_files order config =
      let name = extract_json_string_value config (codes "data_files_encoding") in
      let encoding = if is_empty name then codes "base64" else name in
      let read : Option Files = do
        encoded ← extract_data_files_object config
        decode_files encoding 0 [] (order encoded)
      in if looks_like_json (trim config) then read else some []
