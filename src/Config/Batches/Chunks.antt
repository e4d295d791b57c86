-- ===== src/Config/Batches/Chunks.antt =====
-- What a batch of `applyJsonConfig` holds, and what its steps make of it.
use mathlib.Core.Path.{subst}
use mathlib.Core.List.{cons≢nil}
use modsecurity_proxy_wasm.Base.{
  ◌+◌, ◌≤◌, ◌≡◌, refl, sym, ap, ◌∙◌, ◌⊎◌, inl, inr, Bool, true, false, not, ◌&&◌, ◌||◌, List, [],
  ◌∷◌, ◌++◌, Option, some, All, All-append, ◌>>=◌, append_assoc, append-nil, arith, true≢false, map,
  concat, Bool-cases, absurd, leb, length, length-append,
}
use modsecurity_proxy_wasm.Text.{Bytes}
use modsecurity_proxy_wasm.Config.Batches.{
  line_requests_chain, Batch, flush_inline, flush_if, append_line, load_phrase,
  max_inline_chunk_bytes,
}
use modsecurity_proxy_wasm.Config.Batches.Content.{list_chunk, no_include, concat_snoc}

-- Lines, each with its newline.
abbrev pub joined : List Bytes → Bytes
joined [] = []
joined (line ∷ lines) = line ++ (b'\n' ∷ joined lines)

abbrev pub Requests : Bytes → Type 0
Requests line = line_requests_chain line ≡ true

-- Lines that one chunk may hold: the last asks for no further line of its chain, and all together are
-- of 4096 bytes at most, or all but the last ask for a further one.
abbrev pub IsBlock : List Bytes → Type 0
IsBlock block =
    (front : List Bytes) × ((last : Bytes) × ((block ≡ front ++ last ∷ [])
        × ((line_requests_chain last ≡ false)
            × ((length (joined block) ≤ max_inline_chunk_bytes) ⊎ All Requests front))))

-- Lines that a batch may hold: the open lines of a chain; or nothing, or a short block.
abbrev pub IsHeld : Bool → List Bytes → Type 0
IsHeld true held = All Requests held
IsHeld false held = (held ≡ []) ⊎ (IsBlock held × (length (joined held) ≤ max_inline_chunk_bytes))

abbrev pub batch : List Bytes → Bool → List (List Bytes) → Batch (List Bytes)
batch held pending blocks = record {
  text = joined held;
  pending_chain = pending;
  rules = map joined blocks;
}

-- A step that succeeds: the blocks loaded and the lines held are the lines kept so far, in order.
abbrev pub Good : Bool → List Bytes → Option (Batch (List Bytes)) → Type 0
Good pending kept o =
    (held : List Bytes) × ((blocks : List (List Bytes)) × ((o ≡ some (batch held pending blocks))
        × ((concat blocks ++ held ≡ kept) × (All IsBlock blocks × IsHeld pending held))))

-- A step that loads what is in the batch.
abbrev pub Empties : Bool → List Bytes → Option (Batch (List Bytes)) → Type 0
Empties pending kept o =
    (blocks : List (List Bytes)) × ((o ≡ some (batch [] pending blocks))
      × ((concat blocks ≡ kept) × All IsBlock blocks))

map_snoc :
    (blocks : List (List Bytes)) (block : List Bytes)
    → map joined (blocks ++ block ∷ []) ≡ map joined blocks ++ joined block ∷ []
map_snoc [] block = refl
map_snoc (b ∷ blocks) block = ap (λ ts. joined b ∷ ts) (map_snoc blocks block)

-- Lines that are loaded as a chunk.
loaded-Empties :
    (pending : Bool) (blocks : List (List Bytes)) (block : List Bytes)
    → All IsBlock blocks
    → IsBlock block
    → Empties pending (concat blocks ++ block) (
        some (record {
          text = [];
          pending_chain = pending;
          rules = map joined blocks ++ joined block ∷ [];
        }))
loaded-Empties pending blocks block h k = (
  blocks ++ block ∷ [],
  (
    ap {B = Option (Batch (List Bytes))}
        (λ ts. some (record { text = []; pending_chain = pending; rules = ts }))
        (sym (map_snoc blocks block)),
    (concat_snoc blocks block, All-append IsBlock blocks (block ∷ []) h (k, tt)),
  ),
)

pub flush_inline-Empties :
    (held : List Bytes) (pending : Bool) (blocks : List (List Bytes))
    → All IsBlock blocks
    → (held ≡ []) ⊎ IsBlock held
    → Empties pending
        (concat blocks ++ held)
        (flush_inline list_chunk no_include (batch held pending blocks))
unfolding flush_inline
flush_inline-Empties [] pending blocks h k = (blocks, (refl, (sym (append-nil (concat blocks)), h)))
flush_inline-Empties (line ∷ held) pending blocks h (inl e) = absurd (cons≢nil e)
flush_inline-Empties ([] ∷ held) pending blocks h (inr k) =
    loaded-Empties pending blocks ([] ∷ held) h k
flush_inline-Empties ((c ∷ line) ∷ held) pending blocks h (inr k) =
    loaded-Empties pending blocks ((c ∷ line) ∷ held) h k

pub from_batch : (held : List Bytes) → IsHeld false held → (held ≡ []) ⊎ IsBlock held
from_batch held (inl e) = inl e
from_batch held (inr (block, le)) = inr block

-- A batch that is loaded, or is left where it is short.
settle :
    (c : Bool) (held : List Bytes) (blocks : List (List Bytes))
    → All IsBlock blocks
    → IsBlock held
    → (c ≡ false → length (joined held) ≤ max_inline_chunk_bytes)
    → Good false
        (concat blocks ++ held)
        (flush_if list_chunk no_include c (batch held false blocks))
unfolding flush_if
settle true held blocks h k le =
    let (blocks', (e, (same, h'))) = flush_inline-Empties held false blocks h (inr k) in
    ([], (blocks', (e, (append-nil (concat blocks') ∙ same, (h', inl refl)))))
settle false held blocks h k le = (held, (blocks, (refl, (refl, (h, inr (k, le refl))))))

pub joined_snoc :
    (lines : List Bytes) (line : Bytes)
    → joined (lines ++ line ∷ []) ≡ joined lines ++ (line ++ b'\n' ∷ [])
joined_snoc [] line = refl
joined_snoc (l ∷ lines) line =
    ap (λ t. l ++ (b'\n' ∷ t)) (joined_snoc lines line)
    ∙ sym (append_assoc l (b'\n' ∷ joined lines) (line ++ b'\n' ∷ []))

-- The batch behind `append_line`.
abbrev pub extended : List Bytes → Bytes → Bool → List (List Bytes) → Batch (List Bytes)
extended held line pending blocks = record {
  text = joined held ++ (line ++ b'\n' ∷ []);
  pending_chain = pending;
  rules = map joined blocks;
}

kept_snoc :
    (blocks : List (List Bytes)) (held : List Bytes) (line : Bytes) {kept : List Bytes}
    → concat blocks ++ held ≡ kept
    → concat blocks ++ (held ++ line ∷ []) ≡ kept ++ line ∷ []
kept_snoc blocks held line e =
    sym (append_assoc (concat blocks) held (line ∷ [])) ∙ ap (λ ls. ls ++ line ∷ []) e

-- A step on the batch that holds one line more, as a step on the batch behind `append_line`.
extended-Good :
    (c pending pending' : Bool) (held : List Bytes) (line : Bytes) (blocks : List (List Bytes))
    {kept : List Bytes}
    → concat blocks ++ held ≡ kept
    → Good pending'
        (concat blocks ++ (held ++ line ∷ []))
        (flush_if list_chunk no_include c (batch (held ++ line ∷ []) pending blocks))
    → Good pending'
        (kept ++ line ∷ [])
        (flush_if list_chunk no_include c (extended held line pending blocks))
extended-Good c pending pending' held line blocks {kept} e good =
    subst
      (λ t. Good pending' (kept ++ line ∷ []) (
        flush_if list_chunk no_include c
          (record { text = t; pending_chain = pending; rules = map joined blocks })))
      (joined_snoc held line)
      (subst
        (λ ls.
          Good pending' ls
            (flush_if list_chunk no_include c (batch (held ++ line ∷ []) pending blocks)))
        (kept_snoc blocks held line e) good)

-- A line behind the open lines of a chain: with it the chain is loaded, unless it stays open.
pub extend :
    (held : List Bytes) (line : Bytes) (blocks : List (List Bytes)) {kept : List Bytes}
    → concat blocks ++ held ≡ kept
    → All IsBlock blocks
    → All Requests held
    → Good (line_requests_chain line) (kept ++ line ∷ []) (
        flush_if list_chunk no_include
          (not (line_requests_chain line))
          (extended held line (line_requests_chain line) blocks))
unfolding flush_if
extend held line blocks e h asked =
    extended-Good _ _ _ held line blocks e (elim (Bool-cases (line_requests_chain line)) [
      | inl f ↦
          rw (f, flush_if)
            (
              held ++ line ∷ [],
              (blocks, (refl, (refl, (h, All-append Requests held (line ∷ []) asked (f, tt))))),
            )
      | inr f ↦ rw f (
          settle true (held ++ line ∷ []) blocks h (held, (line, (refl, (f, inr asked))))
            (λ n. absurd (true≢false n)))
    ])

pub Good-then :
    {pending : Bool} {kept : List Bytes} (o : Option (Batch (List Bytes)))
    (k : Batch (List Bytes) → Option (Batch (List Bytes))) {b : Batch (List Bytes)}
    → o ≡ some b
    → Good pending kept (k b)
    → Good pending kept (o >>= k)
Good-then {pending} {kept} o k e good = subst (λ x. Good pending kept (x >>= k)) (sym e) good

-- A line that stands in no chain, added to a batch that it fits.
pub add :
    (line : Bytes) (held : List Bytes) (blocks : List (List Bytes)) {kept : List Bytes}
    → concat blocks ++ held ≡ kept
    → All IsBlock blocks
    → line_requests_chain line ≡ false
    → (held ≡ []) ⊎ (length (joined held) + length line + 1 ≤ max_inline_chunk_bytes)
    → Good false (kept ++ line ∷ []) (
        flush_if list_chunk no_include
          (leb max_inline_chunk_bytes (length (joined held ++ (line ++ b'\n' ∷ []))))
          (extended held line false blocks))
add line held blocks e h n fits =
    let text = joined held ++ (line ++ b'\n' ∷ []) in
    let same : length (joined (held ++ line ∷ [])) ≡ length text =
      ap length (joined_snoc held line) in
    let size : length text ≡ length (joined held) + length line + 1 =
      omega (
        arith,
        length-append (joined held) (line ++ b'\n' ∷ []),
        length-append line (b'\n' ∷ []),
      ) in
    let small : (length (joined (held ++ line ∷ [])) ≤ max_inline_chunk_bytes) ⊎ All Requests held =
      elim fits [
        | inl empty ↦ inr (subst (All Requests) (sym empty) tt)
        | inr le ↦ inl (omega (arith, same, size, le))
      ] in
    extended-Good _ false false held line blocks e (
      settle (leb max_inline_chunk_bytes (length text)) (held ++ line ∷ []) blocks h
        (held, (line, (refl, (n, small)))) (λ short. ground (arith, short, same)))

pub load_phrase-Good :
    (line : Bytes) (held : List Bytes) (pending : Bool) (blocks : List (List Bytes))
    {kept : List Bytes}
    → concat blocks ++ held ≡ kept
    → All IsBlock blocks
    → IsHeld pending held
    → Good
        (line_requests_chain line)
        (kept ++ line ∷ [])
        (load_phrase list_chunk no_include line (batch held pending blocks))
unfolding load_phrase flush_if
load_phrase-Good line held true blocks e h asked = extend held line blocks e h asked
load_phrase-Good line held false blocks e h ok =
    let (blocks', (f, (same, h'))) =
      flush_inline-Empties held false blocks h (from_batch held ok) in
    Good-then (flush_inline list_chunk no_include (batch held false blocks))
      (λ b'.
        flush_if list_chunk no_include (not (line_requests_chain line))
          (append_line list_chunk no_include line b'))
      f (extend [] line blocks' (append-nil (concat blocks') ∙ same ∙ e) h' tt)

-- In a chain, the last test of `load_plain` is whether the line ends it.
pub in_chain :
    (was_pending asks long : Bool)
    → was_pending ≡ true
    → (was_pending && not asks || not asks && long) ≡ not asks
in_chain was_pending asks long e = ground (arith, e)
