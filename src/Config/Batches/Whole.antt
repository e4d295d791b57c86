-- ===== src/Config/Batches/Whole.antt =====
-- The chunks that `applyJsonConfig` loads, for directives that leave no chain open.
use mathlib.Core.Path.{subst}
use modsecurity_proxy_wasm.Base.{
  ◌≤◌, ◌≡◌, refl, sym, ap, ◌∙◌, ◌⊎◌, inl, inr, Bool, true, false, not, ◌&&◌, ◌||◌, List, [], ◌∷◌,
  ◌++◌, map, concat, append-nil, append_assoc, Option, some, All, if◌then◌else◌, ◌>>=◌, arith,
  true≢false, if-ind, Bool-cases, absurd, drop, ◌+◌, leb, ltb, length, &&_split,
}
use modsecurity_proxy_wasm.Text.{Bytes, trim, codes, is_empty, starts_with}
use modsecurity_proxy_wasm.Config.Batches.{
  is_file_phrase_op, line_requests_chain, Batch, flush_inline, flush_if, append_line, load_plain,
  load_include, load_line, load_lines, apply_lines, max_inline_chunk_bytes,
}
use modsecurity_proxy_wasm.Config.Batches.Content.{list_chunk, no_include}
use modsecurity_proxy_wasm.Config.Batches.Chunks.{
  IsBlock, IsHeld, batch, extended, Good, Empties, flush_inline-Empties, from_batch, extend,
  Good-then, load_phrase-Good, in_chain, add, joined, Requests,
}

-- The tests of `load_plain`: whether the batch is loaded in front of the line, and whether behind it.
abbrev loads_before : Bytes → Bytes → Bool → Bool
loads_before line t pending =
    not pending && line_requests_chain line
    || not (is_empty t) && not pending && ltb max_inline_chunk_bytes (length t + length line + 1)

abbrev loads_behind : Bytes → Bytes → Bool → Bool
loads_behind line text pending =
    let asks = line_requests_chain line in
    (pending || not pending && asks) && not asks
    || not asks && leb max_inline_chunk_bytes (length text)

load_plain-Good-then :
    (line : Bytes) (held : List Bytes) (pending : Bool) (blocks : List (List Bytes))
    (held' : List Bytes) (blocks' : List (List Bytes)) (kept : List Bytes)
    → flush_if list_chunk no_include
        (loads_before line (joined held) pending)
        (batch held pending blocks)
      ≡ some (batch held' pending blocks')
    → Good (line_requests_chain line) (kept ++ line ∷ []) (
        flush_if list_chunk no_include
          (loads_behind line (joined held' ++ (line ++ b'\n' ∷ [])) pending)
          (extended held' line (line_requests_chain line) blocks'))
    → Good
        (line_requests_chain line)
        (kept ++ line ∷ [])
        (load_plain list_chunk no_include line (batch held pending blocks))
unfolding load_plain
load_plain-Good-then line held pending blocks held' blocks' kept e good =
    Good-then
      (flush_if list_chunk no_include (loads_before line (joined held) pending)
        (batch held pending blocks))
      (λ b'.
        flush_if list_chunk no_include
          (loads_behind line (append_line list_chunk no_include line b').text pending)
          (append_line list_chunk no_include line b'))
      e good

-- In a chain, the test behind the line is whether the line ends the chain.
chain-Good :
    (line : Bytes) (held : List Bytes) (pending : Bool) (blocks : List (List Bytes))
    {kept : List Bytes}
    → (pending || not pending && line_requests_chain line) ≡ true
    → concat blocks ++ held ≡ kept
    → All IsBlock blocks
    → All Requests held
    → Good (line_requests_chain line) (kept ++ line ∷ []) (
        flush_if list_chunk no_include
          (loads_behind line (joined held ++ (line ++ b'\n' ∷ [])) pending)
          (extended held line (line_requests_chain line) blocks))
chain-Good line held pending blocks {kept} chain e h asked =
    let asks = line_requests_chain line in
    let long = leb max_inline_chunk_bytes (length (joined held ++ (line ++ b'\n' ∷ []))) in
    subst
      (λ c.
        Good asks (kept ++ line ∷ [])
          (flush_if list_chunk no_include c (extended held line asks blocks)))
      (sym (in_chain _ asks long chain)) (extend held line blocks e h asked)

-- A line that does not make its batch full fits it.
fits :
    (line : Bytes) (held : List Bytes)
    → line_requests_chain line ≡ false
    → loads_before line (joined held) false ≡ false
    → (held ≡ []) ⊎ (length (joined held) + length line + 1 ≤ max_inline_chunk_bytes)
fits line [] n e = inl refl
fits line ([] ∷ held) n e = inr (ground (arith, n, e))
fits line ((c ∷ l) ∷ held) n e = inr (ground (arith, n, e))

load_plain-Good :
    (line : Bytes) (held : List Bytes) (pending : Bool) (blocks : List (List Bytes))
    {kept : List Bytes}
    → concat blocks ++ held ≡ kept
    → All IsBlock blocks
    → IsHeld pending held
    → Good
        (line_requests_chain line)
        (kept ++ line ∷ [])
        (load_plain list_chunk no_include line (batch held pending blocks))
unfolding flush_if
load_plain-Good line held true blocks {kept} e h asked =
    let stays : loads_before line (joined held) true ≡ false = ground arith in
    load_plain-Good-then line held true blocks held blocks kept
      (ap (λ c. flush_if list_chunk no_include c (batch held true blocks)) stays)
      (chain-Good line held true blocks refl e h asked)
load_plain-Good line held false blocks {kept} e h ok =
    let (blocks', (f, (same, h'))) =
      flush_inline-Empties held false blocks h (from_batch held ok) in
    let e' = append-nil (concat blocks') ∙ same ∙ e in
    let flush : Bool → Option (Batch (List Bytes)) =
      λ x. flush_if list_chunk no_include x (batch held false blocks) in
    let flushed : loads_before line (joined held) false ≡ true
        → flush (loads_before line (joined held) false) ≡ some (batch [] false blocks') =
      λ c. ap flush c ∙ f in
    elim (Bool-cases (line_requests_chain line)) [
      | inl asks ↦
          load_plain-Good-then line held false blocks [] blocks' kept
            (flushed (ground (arith, asks))) (chain-Good line [] false blocks' asks e' h' tt)
      | inr n ↦ elim (Bool-cases (loads_before line (joined held) false)) [
        | inl c ↦
            load_plain-Good-then line held false blocks [] blocks' kept (flushed c)
              (rw n (add line [] blocks' e' h' n (inl refl)))
        | inr c ↦
            load_plain-Good-then line held false blocks held blocks kept (ap flush c)
              (rw n (add line held blocks e h n (fits line held n c)))
      ]
    ]

load_include-Good :
    (line : Bytes) (held : List Bytes) (blocks : List (List Bytes)) {kept : List Bytes}
    → concat blocks ++ held ≡ kept
    → All IsBlock blocks
    → IsHeld false held
    → Good false kept (load_include list_chunk no_include line (batch held false blocks))
unfolding load_include
load_include-Good line held blocks e h ok =
    let (blocks', (f, (same, h'))) =
      flush_inline-Empties held false blocks h (from_batch held ok) in
    Good-then (flush_inline list_chunk no_include (batch held false blocks))
      (λ b'. no_include (trim (drop 8 line)) b'.rules >>= λ rules.
        some (record b' { pending_chain = false; rules = rules }))
      f ([], (blocks', (refl, (append-nil (concat blocks') ∙ same ∙ e, (h', inl refl)))))

-- Whether a line asks for a further one behind a trimmed line, by what it was before.
abbrev pub asks_after : Bytes → Bool → Bool
asks_after line pending =
    if is_empty line || starts_with (codes "#") line
    then pending
    else if starts_with (codes "Include ") line
    then false
    else line_requests_chain line

abbrev splits : Bytes → Bool → Bool
splits line pending =
    pending
    && not (is_empty line || starts_with (codes "#") line)
    && starts_with (codes "Include ") line

-- No chain is open at an include and behind the last line. The flag says whether one is open in front.
unfoldable pub closes_chains : Bool → List Bytes → Bool
closes_chains pending [] = not pending
closes_chains pending (line ∷ lines) =
    let rest = closes_chains (asks_after (trim line) pending) lines in
    not (splits (trim line) pending) && rest

-- The line, where it is loaded: not where it is empty, a comment or an include.
abbrev pub kept_line : Bytes → List Bytes
kept_line line =
    if is_empty line || starts_with (codes "#") line
    then []
    else if starts_with (codes "Include ") line
    then []
    else line ∷ []

-- The trimmed lines that are loaded.
abbrev pub kept_lines : List Bytes → List Bytes
kept_lines [] = []
kept_lines (line ∷ lines) = kept_line (trim line) ++ kept_lines lines

closed :
    (pending : Bool) {a b : Bool}
    → a ≡ false
    → b ≡ true
    → (pending && not a && b) ≡ false
    → pending ≡ false
closed pending n e s = ground (arith, n, e, s)

include-Good :
    (line : Bytes) (held : List Bytes) (pending : Bool) (blocks : List (List Bytes))
    {kept : List Bytes}
    → pending ≡ false
    → concat blocks ++ held ≡ kept
    → All IsBlock blocks
    → IsHeld pending held
    → Good false kept (load_include list_chunk no_include line (batch held pending blocks))
include-Good line held true blocks n e h ok = absurd (true≢false n)
include-Good line held false blocks n e h ok = load_include-Good line held blocks e h ok

load_line-Good :
    (line : Bytes) (held : List Bytes) (pending : Bool) (blocks : List (List Bytes))
    {kept : List Bytes}
    → splits line pending ≡ false
    → concat blocks ++ held ≡ kept
    → All IsBlock blocks
    → IsHeld pending held
    → Good
        (asks_after line pending)
        (kept ++ kept_line line)
        (load_line list_chunk no_include line (batch held pending blocks))
unfolding load_line
load_line-Good line held pending blocks {kept} s e h ok =
    elim (Bool-cases (is_empty line || starts_with (codes "#") line)) [
      | inl c ↦ rw c (held, (blocks, (refl, (e ∙ sym (append-nil kept), (h, ok)))))
      | inr n ↦ elim (Bool-cases (starts_with (codes "Include ") line)) [
        | inl c ↦
            rw (n, c)
              (include-Good line held pending blocks (closed pending n c s)
                (e ∙ sym (append-nil kept)) h ok)
        | inr n' ↦
            rw (n, n')
              (if-ind (Good (line_requests_chain line) (kept ++ line ∷ [])) (is_file_phrase_op line)
                (λ _. load_phrase-Good line held pending blocks e h ok)
                (λ _. load_plain-Good line held pending blocks e h ok))
      ]
    ]

load_lines-Empties :
    (lines held : List Bytes) (pending : Bool) (blocks : List (List Bytes)) (kept : List Bytes)
    → closes_chains pending lines ≡ true
    → concat blocks ++ held ≡ kept
    → All IsBlock blocks
    → IsHeld pending held
    → (pending' : Bool) × Empties pending'
        (kept ++ kept_lines lines)
        (load_lines list_chunk no_include lines (batch held pending blocks))
unfolding load_lines closes_chains
load_lines-Empties [] held true blocks kept w e h ok = absurd (true≢false (sym w))
load_lines-Empties [] held false blocks kept w e h ok =
    let (blocks', (f, (same, h'))) =
      flush_inline-Empties held false blocks h (from_batch held ok) in
    (false, (blocks', (f, (same ∙ e ∙ sym (append-nil kept), h'))))
load_lines-Empties (line ∷ lines) held pending blocks kept w e h ok =
    let (whole, later) = &&_split (not (splits (trim line) pending)) _ w in
    let (held', (blocks', (f, (e', (h', ok'))))) =
      load_line-Good (trim line) held pending blocks (ground (arith, whole)) e h ok in
    let (pending', (blocks'', (g, (same, h'')))) =
      load_lines-Empties lines held' (asks_after (trim line) pending) blocks'
        (kept ++ kept_line (trim line)) later e' h' ok' in
    (
      pending',
      (
        blocks'',
        (
          ap (λ o. o >>= (λ x. load_lines list_chunk no_include lines x)) f ∙ g,
          (same ∙ append_assoc kept (kept_line (trim line)) (kept_lines lines), h''),
        ),
      ),
    )

-- Where no chain is open at an include or at the end of the directives, with a loader that accepts
-- every chunk and includes that add none, `applyJsonConfig` succeeds, and its chunks divide the
-- trimmed lines that are no comment and no include into blocks, in order: each chunk is the lines of
-- its block, each followed by a newline. No block splits a chain: its last line asks for no further
-- line. The chunk of a block is of 4096 bytes at most, or all lines of the block but the last ask for
-- a further one, so that it is one line or one chain.
pub apply_lines_chunks :
    (lines : List Bytes)
    → closes_chains false lines ≡ true
    → (blocks : List (List Bytes)) × ((apply_lines list_chunk no_include lines []
          ≡ some (map joined blocks))
        × ((concat blocks ≡ kept_lines lines) × All IsBlock blocks))
unfolding apply_lines
apply_lines_chunks lines w =
    let (pending, (blocks, (e, (same, h)))) =
      load_lines-Empties lines [] false [] [] w refl tt (inl refl) in
    (blocks, (ap {B = Option (List Bytes)} (λ o. o >>= (λ x. some x.rules)) e, (same, h)))
