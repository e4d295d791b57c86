-- ===== src/Config/Batches/Content.antt =====
-- Batching loses no directive: the chunks hold the lines, in their order.
use mathlib.Core.Path.{subst}
use modsecurity_proxy_wasm.Base.{
  ◌≡◌, refl, sym, ◌∙◌, ap, Bool, true, false, not, ◌&&◌, ◌||◌, List, [], ◌∷◌, ◌++◌, Option, some,
  if◌then◌else◌, ◌>>=◌, concat, append_assoc, append-nil, arith, if-ind, Bool-cases, inl, inr, drop,
  ◌+◌, leb, ltb, length,
}
use modsecurity_proxy_wasm.Text.{Bytes, trim, codes, is_empty, starts_with}
use modsecurity_proxy_wasm.Config.Batches.{
  is_file_phrase_op, line_requests_chain, Batch, flush_inline, flush_if, append_line, load_phrase,
  load_plain, load_include, load_line, load_lines, apply_lines, max_inline_chunk_bytes,
}

-- A loader that lists the chunks, and an include that loads none.
abbrev pub list_chunk : Bytes → Bytes → List Bytes → Option (List Bytes)
list_chunk label text chunks = some (chunks ++ text ∷ [])

abbrev pub no_include : Bytes → List Bytes → Option (List Bytes)
no_include target chunks = some chunks

-- What a trimmed line adds to the chunks: nothing where it is empty, a comment or an include.
abbrev pub directive_text : Bytes → Bytes
directive_text line =
    if is_empty line || starts_with (codes "#") line
    then []
    else if starts_with (codes "Include ") line
    then []
    else line ++ b'\n' ∷ []

abbrev pub directives_text : List Bytes → Bytes
directives_text [] = []
directives_text (line ∷ lines) = directive_text (trim line) ++ directives_text lines

pub concat_snoc {ℓ} :
    {A : Type ℓ} (chunks : List (List A)) (t : List A)
    → concat (chunks ++ t ∷ []) ≡ concat chunks ++ t
concat_snoc [] t = append-nil t
concat_snoc (c ∷ chunks) t =
    ap (λ s. c ++ s) (concat_snoc chunks t) ∙ sym (append_assoc c (concat chunks) t)

-- All text so far, loaded or not.
abbrev content : Batch (List Bytes) → Bytes
content b = concat b.rules ++ b.text

-- A step that succeeds and leaves the content `t`.
abbrev Leaves : Bytes → Option (Batch (List Bytes)) → Type 0
Leaves t o = (b : Batch (List Bytes)) × ((o ≡ some b) × (content b ≡ t))

Leaves-then :
    {t t' : Bytes} (o : Option (Batch (List Bytes)))
    (k : Batch (List Bytes) → Option (Batch (List Bytes)))
    → Leaves t o
    → ((b : Batch (List Bytes)) → content b ≡ t → Leaves t' (k b))
    → Leaves t' (o >>= k)
Leaves-then o k (b, (e, same)) f =
    let (b', (e', same')) = f b same in (b', (ap (λ x. x >>= k) e ∙ e', same'))

flush_inline-Leaves :
    (b : Batch (List Bytes)) → Leaves (content b) (flush_inline list_chunk no_include b)
unfolding flush_inline
flush_inline-Leaves b =
    if-ind (Leaves (content b)) (is_empty b.text) (λ _. (b, (refl, refl)))
      (λ _. (
        record b { text = []; rules = b.rules ++ b.text ∷ [] },
        (refl, append-nil (concat (b.rules ++ b.text ∷ [])) ∙ concat_snoc b.rules b.text),
      ))

flush_if-Leaves :
    (c : Bool) (b : Batch (List Bytes)) → Leaves (content b) (flush_if list_chunk no_include c b)
unfolding flush_if
flush_if-Leaves c b =
    if-ind (Leaves (content b)) c (λ _. flush_inline-Leaves b) (λ _. (b, (refl, refl)))

-- A line appended, and a flush that may follow.
append-Leaves :
    (c : Bool) (line : Bytes) (b : Batch (List Bytes)) {t : Bytes}
    → content b ≡ t
    → Leaves
        (t ++ (line ++ b'\n' ∷ []))
        (flush_if list_chunk no_include c (append_line list_chunk no_include line b))
append-Leaves c line b {t} e =
    let (b', (f, same)) = flush_if-Leaves c (append_line list_chunk no_include line b) in
    (
      b',
      (
        f,
        same
            ∙ sym (append_assoc (concat b.rules) b.text (line ++ b'\n' ∷ []))
            ∙ ap (λ s. s ++ (line ++ b'\n' ∷ [])) e,
      ),
    )

load_phrase-Leaves :
    (line : Bytes) (b : Batch (List Bytes))
    → Leaves (content b ++ (line ++ b'\n' ∷ [])) (load_phrase list_chunk no_include line b)
unfolding load_phrase
load_phrase-Leaves line b =
    Leaves-then (flush_if list_chunk no_include (not b.pending_chain) b)
      (λ b'.
        flush_if list_chunk no_include (not (line_requests_chain line))
          (append_line list_chunk no_include line b'))
      (flush_if-Leaves (not b.pending_chain) b)
      λ b' e. append-Leaves (not (line_requests_chain line)) line b' e

load_plain-Leaves :
    (line : Bytes) (b : Batch (List Bytes))
    → Leaves (content b ++ (line ++ b'\n' ∷ [])) (load_plain list_chunk no_include line b)
unfolding load_plain
load_plain-Leaves line b =
    let is_chain_parent = not b.pending_chain && line_requests_chain line in
    let full =
      not (is_empty b.text)
      && not b.pending_chain
      && ltb max_inline_chunk_bytes (length b.text + length line + 1) in
    let was_pending = b.pending_chain || is_chain_parent in
    let pending = line_requests_chain line in
    let ends : Batch (List Bytes) → Bool = λ added.
      was_pending && not pending || not pending && leb max_inline_chunk_bytes (length added.text) in
    Leaves-then (flush_if list_chunk no_include (is_chain_parent || full) b)
      (λ b'.
        flush_if list_chunk no_include (ends (append_line list_chunk no_include line b'))
          (append_line list_chunk no_include line b'))
      (flush_if-Leaves (is_chain_parent || full) b)
      λ b' e. append-Leaves (ends (append_line list_chunk no_include line b')) line b' e

load_include-Leaves :
    (line : Bytes) (b : Batch (List Bytes))
    → Leaves (content b) (load_include list_chunk no_include line b)
unfolding load_include
load_include-Leaves line b =
    Leaves-then (flush_inline list_chunk no_include b)
      (λ b'. no_include (trim (drop 8 line)) b'.rules >>= λ rules.
        some (record b' { pending_chain = false; rules = rules }))
      (flush_inline-Leaves b) λ b' e. (record b' { pending_chain = false }, (refl, e))

load_line-Leaves :
    (line : Bytes) (b : Batch (List Bytes))
    → Leaves (content b ++ directive_text line) (load_line list_chunk no_include line b)
unfolding load_line
load_line-Leaves line b = elim (Bool-cases (is_empty line || starts_with (codes "#") line)) [
  | inl e ↦ rw e (b, (refl, sym (append-nil (content b))))
  | inr n ↦ elim (Bool-cases (starts_with (codes "Include ") line)) [
    | inl e ↦
        rw (n, e)
          (subst (λ t. Leaves t (load_include list_chunk no_include line b))
            (sym (append-nil (content b))) (load_include-Leaves line b))
    | inr n' ↦
        rw (n, n')
          (if-ind (Leaves (content b ++ (line ++ b'\n' ∷ []))) (is_file_phrase_op line)
            (λ _. load_phrase-Leaves line b) (λ _. load_plain-Leaves line b))
  ]
]

-- A step that succeeds and has loaded all of the content `t`.
abbrev Loads : Bytes → Option (Batch (List Bytes)) → Type 0
Loads t o = (b : Batch (List Bytes)) × ((o ≡ some b) × (concat b.rules ≡ t))

empty_text : (t : Bytes) → is_empty t ≡ true → t ≡ []
empty_text t e = ground arith

flush_inline-Loads :
    (b : Batch (List Bytes)) → Loads (content b) (flush_inline list_chunk no_include b)
unfolding flush_inline
flush_inline-Loads b =
    if-ind (Loads (content b)) (is_empty b.text)
      (λ e. (
        b,
        (
          refl,
          sym (ap (λ t. concat b.rules ++ t) (empty_text b.text e) ∙ append-nil (concat b.rules)),
        ),
      ))
      (λ _. (
        record b { text = []; rules = b.rules ++ b.text ∷ [] },
        (refl, concat_snoc b.rules b.text),
      ))

load_lines-Loads :
    (lines : List Bytes) (b : Batch (List Bytes))
    → Loads (content b ++ directives_text lines) (load_lines list_chunk no_include lines b)
unfolding load_lines
load_lines-Loads [] b =
    subst (λ t. Loads t (flush_inline list_chunk no_include b)) (sym (append-nil (content b)))
      (flush_inline-Loads b)
load_lines-Loads (line ∷ lines) b =
    let (b', (e, same)) = load_line-Leaves (trim line) b in
    let (b'', (f, all)) = load_lines-Loads lines b' in
    (
      b'',
      (
        ap (λ o. o >>= (λ x. load_lines list_chunk no_include lines x)) e ∙ f,
        all
            ∙ ap (λ t. t ++ directives_text lines) same
            ∙ append_assoc (content b) (directive_text (trim line)) (directives_text lines),
      ),
    )

-- With a loader that accepts every chunk and includes that add none, `applyJsonConfig` loads all of
-- its lines, and the chunks one after the other hold each trimmed line that is no comment and no
-- include, followed by a newline, once and in order, however lines are grouped into chunks.
pub apply_lines_lem :
    (lines : List Bytes)
    → (chunks : List Bytes) × ((apply_lines list_chunk no_include lines [] ≡ some chunks)
        × (concat chunks ≡ directives_text lines))
unfolding apply_lines
apply_lines_lem lines =
    let (b, (e, all)) =
      load_lines-Loads lines (record { text = []; pending_chain = false; rules = [] }) in
    (b.rules, (ap {B = Option (List Bytes)} (λ o. o >>= (λ x. some x.rules)) e, all))
