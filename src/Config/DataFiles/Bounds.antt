-- ===== src/Config/DataFiles/Bounds.antt =====
-- How long the phrase files and the inflated directives are (`parseDataFiles`, `gzipInflate`).
use mathlib.Core.Path.{subst}
use modsecurity_proxy_wasm.Base.{
  ℕ, ◌+◌, ◌≤◌, ◌≡◌, sym, inl, inr, [], ◌∷◌, ◌++◌, Option, none, some, absurd, ltb, length,
  Bool-cases, >>=-some, none-ne-some, some-injective, ap, ◌∙◌, if-ind, if◌then◌else◌, length-append,
  not, ◌||◌, arith,
}
use modsecurity_proxy_wasm.Text.{Bytes, codes, is_empty, equal, trim}
use modsecurity_proxy_wasm.Config.Json.{looks_like_json, extract_json_string_value}
use modsecurity_proxy_wasm.Config.Directives.{
  Inflate, max_inflated_directives_bytes, within, inflate_from, gzip_inflate,
}
use modsecurity_proxy_wasm.Config.DataFiles.{
  Files, assign, extract_data_files_object, max_data_files_total_inflated_bytes,
  max_data_file_inflated_bytes, decode_file, decode_files, parse_data_files,
}

-- The bytes of all files.
abbrev pub total_size : Files → ℕ
total_size [] = 0
total_size ((name, text) ∷ files) = length text + total_size files

total_size-assign :
    (name text : Bytes) (files : Files)
    → total_size (assign name text files) ≤ total_size files + length text
unfolding assign
total_size-assign name text [] = omega arith
total_size-assign name text ((n, t) ∷ files) =
    if-ind (λ fs. total_size fs ≤ length t + total_size files + length text) (equal n name)
      (λ _. omega arith) (λ _. omega (arith, total_size-assign name text files))

-- A file that passes the test of its size is unchanged.
within-some :
    (limit n : ℕ) (text : Bytes) {kept : Bytes}
    → within limit n text ≡ some kept
    → (text ≡ kept) × (n ≤ limit)
within-some limit n text e = elim (Bool-cases (ltb limit n)) [
  | inl t ↦ absurd (none-ne-some _ (sym (ap (λ b. if b then none else some text) t) ∙ e))
  | inr f ↦ (some-injective _ _ (sym (ap (λ b. if b then none else some text) f) ∙ e), ground arith)
]

module _ (z : Inflate) where
  decode_files_bound :
      (encoding : Bytes) (total : ℕ) (out encoded : Files) {files : Files}
      → total_size out ≤ total
      → total ≤ max_data_files_total_inflated_bytes
      → decode_files z encoding total out encoded ≡ some files
      → total_size files ≤ max_data_files_total_inflated_bytes
  unfolding decode_files
  decode_files_bound encoding total out [] {files} le limit e =
      subst (λ fs. total_size fs ≤ max_data_files_total_inflated_bytes) (some-injective _ _ e)
        (omega (arith, le, limit))
  decode_files_bound encoding total out ((name, text) ∷ encoded) le limit e =
      let (decoded, (_, e1)) = >>=-some (decode_file z encoding text) e in
      let (small, (_, e2)) =
        >>=-some (within max_data_file_inflated_bytes (length decoded) decoded) e1 in
      let (kept, (g, e3)) =
        >>=-some (within max_data_files_total_inflated_bytes (total + length small) small) e2 in
      let (same, le') =
        within-some max_data_files_total_inflated_bytes (total + length small) small g in
      let same_length : length small ≡ length kept = ap length same in
      decode_files_bound encoding (total + length kept) (assign name kept out) encoded
        (omega (arith, total_size-assign name kept out)) (omega arith) e3

  -- `parseDataFiles` returns no files or files of 2 MiB at most in all, in whatever order the hash map
  -- lists its entries.
  pub parse_data_files_bound :
      (order : Files → Files) (config : Bytes) {files : Files}
      → parse_data_files z order config ≡ some files
      → total_size files ≤ max_data_files_total_inflated_bytes
  unfolding parse_data_files
  parse_data_files_bound order config {files} e =
      let name = extract_json_string_value config (codes "data_files_encoding") in
      let encoding = if is_empty name then codes "base64" else name in
      let Bounded : Option Files → Type 0 =
        λ o. o ≡ some files → total_size files ≤ max_data_files_total_inflated_bytes in
      if-ind Bounded (looks_like_json (trim config))
        (λ _ e'.
          let (encoded, (_, e'')) = >>=-some (extract_data_files_object config) e' in
          decode_files_bound encoding 0 [] (order encoded) (omega arith) (omega arith) e'')
        (λ _ e'.
          subst (λ fs. total_size fs ≤ max_data_files_total_inflated_bytes) (some-injective _ _ e')
            (omega arith))
        e

module _ (z : Inflate) where
  -- `gzipInflate` gives at most 32 MiB, whatever zlib makes of the text.
  pub gzip_inflate_bound :
      (compressed : Bytes) {text : Bytes}
      → gzip_inflate z compressed ≡ some text
      → length text ≤ max_inflated_directives_bytes
  unfolding gzip_inflate
  gzip_inflate_bound compressed {text} e =
      let Bounded : Option Bytes → Type 0 =
        λ o. o ≡ some text → length text ≤ max_inflated_directives_bytes in
      if-ind Bounded (is_empty compressed || not (z.ready compressed))
        (λ _ e'. absurd (none-ne-some _ e'))
        (λ _ e'.
          let (plain, (_, e1)) = >>=-some (inflate_from [] (z.outputs compressed)) e' in
          let (out, (_, e2)) = >>=-some (z.last compressed) e1 in
          let (same, le) =
            within-some max_inflated_directives_bytes (length plain + length out) (plain ++ out)
              e2 in
          subst (λ t. length t ≤ max_inflated_directives_bytes) same
            (omega (arith, length-append plain out, le)))
        e
