-- ===== src/Config/Batches.antt =====
-- src/waf_config.cc: how `applyJsonConfig` groups the lines of the directives into the chunks that
-- it loads. What a loaded chunk and an include do to the rules is a parameter: the source takes the
-- loader as an argument, and includes are looked up in a catalog that the build generates.
pub mod Content
pub mod Chunks
pub mod Whole
pub mod Kept
use modsecurity_proxy_wasm.Base.{
  ℕ, ◌+◌, ◌-◌, Bool, true, false, not, ◌&&◌, ◌||◌, List, [], ◌∷◌, ◌++◌, Option, none, some,
  if◌then◌else◌, ltb, leb, length, drop, ◌>>=◌,
}
use modsecurity_proxy_wasm.Text.{Bytes, codes, is_empty, starts_with, ends_with, contains, trim}

-- `is_file_phrase_op`
unfoldable pub is_file_phrase_op : Bytes → Bool
is_file_phrase_op line =
    contains line (codes "@pmFromFile") || contains line (codes "@ipMatchFromFile")

-- `line_requests_chain`
unfoldable pub line_requests_chain : Bytes → Bool
line_requests_chain line =
    contains line (codes ",chain\"")
    || contains line (codes ",chain,")
    || contains line (codes "\"chain\"")
    || contains line (codes ",chain\n")
    || ends_with line (codes ",chain")

abbrev pub max_inline_chunk_bytes : ℕ
max_inline_chunk_bytes = 4096

-- `inline_batch`, `pending_chain`, and what the loads so far have made: rules, and paths seen.
pub record Batch (S : Type 0) : Type 0 where
  pub text : Bytes
  pub pending_chain : Bool
  pub rules : S

module _ {S : Type 0} (load_chunk : Bytes → Bytes → S → Option S)
    (resolve_include : Bytes → S → Option S) where
  -- `flushInline`
  unfoldable pub flush_inline : Batch S → Option (Batch S)
  flush_inline b = if is_empty b.text then some b else do
    rules ← load_chunk (codes "inline-directives") b.text b.rules
    some (record b { text = []; rules = rules })

  unfoldable pub flush_if : Bool → Batch S → Option (Batch S)
  flush_if c b = if c then flush_inline b else some b

  -- `inline_batch.append(line)` and the newline
  abbrev pub append_line : Bytes → Batch S → Batch S
  append_line line b = record b {
    text = b.text ++ (line ++ b'\n' ∷ []);
    pending_chain = line_requests_chain line;
  }

  -- A phrase-file operator is loaded on its own, unless it stands in a chain.
  unfoldable pub load_phrase : Bytes → Batch S → Option (Batch S)
  load_phrase line b = do
    b' ← flush_if (not b.pending_chain) b
    flush_if (not (line_requests_chain line)) (append_line line b')

  -- A chain is loaded on its own; other lines share a chunk up to its limit.
  unfoldable pub load_plain : Bytes → Batch S → Option (Batch S)
  load_plain line b =
      let is_chain_parent = not b.pending_chain && line_requests_chain line in
      let full =
        not (is_empty b.text)
        && not b.pending_chain
        && ltb max_inline_chunk_bytes (length b.text + length line + 1) in
      let was_pending = b.pending_chain || is_chain_parent in
      let pending = line_requests_chain line in
      do
        b' ← flush_if (is_chain_parent || full) b
        let added = append_line line b'
        flush_if
            (was_pending && not pending
              || not pending && leb max_inline_chunk_bytes (length added.text))
            added

  unfoldable pub load_include : Bytes → Batch S → Option (Batch S)
  load_include line b = do
    b' ← flush_inline b
    rules ← resolve_include (trim (drop 8 line)) b'.rules
    some (record b' { pending_chain = false; rules = rules })

  -- The loop's body, for a trimmed line.
  unfoldable pub load_line : Bytes → Batch S → Option (Batch S)
  load_line line b =
      if is_empty line || starts_with (codes "#") line
      then some b
      else if starts_with (codes "Include ") line
      then load_include line b
      else if is_file_phrase_op line
      then load_phrase line b
      else load_plain line b

  unfoldable pub load_lines : List Bytes → Batch S → Option (Batch S)
  load_lines [] b = flush_inline b
  load_lines (line ∷ lines) b = do b' ← load_line (trim line) b; load_lines lines b'

  -- The loop of `applyJsonConfig`; `none` stands for a failed load.
  unfoldable pub apply_lines : List Bytes → S → Option S
  apply_lines lines rules = do
    b ← load_lines lines (record { text = []; pending_chain = false; rules = rules })
    some b.rules
