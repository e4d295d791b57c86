-- ===== src/Config/Batches/Kept.antt =====
-- src/waf_config.cc: properties of the rules that the loop of `applyJsonConfig` passes on.
use mathlib.Core.Path.{subst}
use modsecurity_proxy_wasm.Base.{
  Bool, true, false, not, ◌||◌, List, [], ◌∷◌, Option, none, some, if-ind, >>=-ind, ◌≡◌, drop,
}
use modsecurity_proxy_wasm.Text.{Bytes, codes, is_empty, starts_with, trim}
use modsecurity_proxy_wasm.Config.Batches.{
  Batch, flush_inline, flush_if, append_line, load_phrase, load_plain, load_include, load_line,
  load_lines, apply_lines, line_requests_chain, is_file_phrase_op,
}

-- A property of the outcome of a step, if it succeeds.
abbrev pub IfSome {ℓ} : {A : Type ℓ} → (A → Type 0) → Option A → Type 0
IfSome P none = Unit
IfSome P (some a) = P a

-- A property of an outcome, at the success that it is.
at {ℓ} : {A : Type ℓ} (Q : A → Type 0) {o : Option A} {a : A} → o ≡ some a → IfSome Q o → Q a
at Q e q = subst (IfSome Q) e q

module _ {S : Type 0} (load_chunk : Bytes → Bytes → S → Option S) (resolve : Bytes → S → Option S)
    (P : S → Type 0)
    (loads : (text : Bytes) (s : S)
      → P s
      → IfSome P (load_chunk (codes "inline-directives") text s))
    (includes : (target : Bytes) (s : S) → P s → IfSome P (resolve target s)) where
  abbrev Holds : Batch S → Type 0
  Holds b = P b.rules

  abbrev Kept : Option (Batch S) → Type 0
  Kept = IfSome Holds

  flush_inline-Kept : (b : Batch S) → P b.rules → Kept (flush_inline load_chunk resolve b)
  unfolding flush_inline
  flush_inline-Kept b p =
      if-ind Kept (is_empty b.text) (λ _. p)
        (λ _.
          >>=-ind Kept (load_chunk (codes "inline-directives") b.text b.rules) tt
            λ rules e. at P e (loads b.text b.rules p))

  flush_if-Kept : (c : Bool) (b : Batch S) → P b.rules → Kept (flush_if load_chunk resolve c b)
  unfolding flush_if
  flush_if-Kept true b p = flush_inline-Kept b p
  flush_if-Kept false b p = p

  load_phrase-Kept :
      (line : Bytes) (b : Batch S) → P b.rules → Kept (load_phrase load_chunk resolve line b)
  unfolding load_phrase
  load_phrase-Kept line b p =
      >>=-ind Kept (flush_if load_chunk resolve (not b.pending_chain) b) tt λ b' e.
        flush_if-Kept (not (line_requests_chain line)) (append_line load_chunk resolve line b')
          (at Holds e (flush_if-Kept (not b.pending_chain) b p))

  load_plain-Kept :
      (line : Bytes) (b : Batch S) → P b.rules → Kept (load_plain load_chunk resolve line b)
  unfolding load_plain
  load_plain-Kept line b p = >>=-ind Kept (flush_if load_chunk resolve _ b) tt λ b' e.
      flush_if-Kept _ (append_line load_chunk resolve line b') (at Holds e (flush_if-Kept _ b p))

  load_include-Kept :
      (line : Bytes) (b : Batch S) → P b.rules → Kept (load_include load_chunk resolve line b)
  unfolding load_include
  load_include-Kept line b p = >>=-ind Kept (flush_inline load_chunk resolve b) tt λ b' e.
      >>=-ind Kept (resolve (trim (drop 8 line)) b'.rules) tt λ rules f.
        at P f (includes (trim (drop 8 line)) b'.rules (at Holds e (flush_inline-Kept b p)))

  load_line-Kept :
      (line : Bytes) (b : Batch S) → P b.rules → Kept (load_line load_chunk resolve line b)
  unfolding load_line
  load_line-Kept line b p =
      if-ind Kept (is_empty line || starts_with (codes "#") line) (λ _. p)
        λ _.
          if-ind Kept (starts_with (codes "Include ") line) (λ _. load_include-Kept line b p)
            λ _.
              if-ind Kept (is_file_phrase_op line) (λ _. load_phrase-Kept line b p)
                λ _. load_plain-Kept line b p

  load_lines-Kept :
      (lines : List Bytes) (b : Batch S) → P b.rules → Kept (load_lines load_chunk resolve lines b)
  unfolding load_lines
  load_lines-Kept [] b p = flush_inline-Kept b p
  load_lines-Kept (line ∷ lines) b p =
      >>=-ind Kept (load_line load_chunk resolve (trim line) b) tt
        λ b' e. load_lines-Kept lines b' (at Holds e (load_line-Kept (trim line) b p))

  pub apply_lines-Kept :
      (lines : List Bytes) (s : S) → P s → IfSome P (apply_lines load_chunk resolve lines s)
  unfolding apply_lines
  apply_lines-Kept lines s p =
      let b : Batch S = record { text = []; pending_chain = false; rules = s } in
      >>=-ind (IfSome P) (load_lines load_chunk resolve lines b) tt
        λ b' e. at Holds e (load_lines-Kept lines b p)
