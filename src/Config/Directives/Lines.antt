-- ===== src/Config/Directives/Lines.antt =====
-- The lines of texts that are put together.
use modsecurity_proxy_wasm.Base.{
  ◌≡◌, refl, sym, ap, ◌∙◌, ◌⊎◌, inl, inr, List, [], ◌∷◌, ◌++◌, append-nil, append_assoc, Bool-cases,
  ◌==◌,
}
use modsecurity_proxy_wasm.Text.{Bytes, trim, trim_start, trim_end, is_empty}
use modsecurity_proxy_wasm.Config.Directives.{split_lines, keep_lines, split_directive_lines}

split_lines-append :
    (a b : Bytes)
    → ((split_lines (a ++ b'\n' ∷ b)).0 ≡ (split_lines a).0)
      × ((split_lines (a ++ b'\n' ∷ b)).1
          ≡ (split_lines a).1 ++ ((split_lines b).0 ∷ (split_lines b).1))
unfolding split_lines
split_lines-append [] b = (refl, refl)
split_lines-append (c ∷ a) b =
    let (first, later) = split_lines-append a b in
    elim (Bool-cases (c == b'\n')) [
      | inl e ↦ rw (e, first, later) (refl, refl)
      | inr n ↦ rw (n, first, later) (refl, refl)
    ]

keep_lines-append : (a b : List Bytes) → keep_lines (a ++ b) ≡ keep_lines a ++ keep_lines b
unfolding keep_lines
keep_lines-append [] b = refl
keep_lines-append (line ∷ a) b = elim (Bool-cases (is_empty (trim line))) [
  | inl e ↦ rw e (keep_lines-append a b)
  | inr n ↦ rw n (ap (λ x. trim line ∷ x) (keep_lines-append a b))
]

-- A newline divides the lines.
split_directive_lines-append :
    (a b : Bytes)
    → split_directive_lines (a ++ b'\n' ∷ b) ≡ split_directive_lines a ++ split_directive_lines b
unfolding split_directive_lines
split_directive_lines-append a b =
    let (first, later) = split_lines-append a b in
    ap (λ x. keep_lines (x ∷ (split_lines (a ++ b'\n' ∷ b)).1)) first
    ∙ ap (λ x. keep_lines ((split_lines a).0 ∷ x)) later
    ∙ keep_lines-append ((split_lines a).0 ∷ (split_lines a).1)
        ((split_lines b).0 ∷ (split_lines b).1)

pub split_directive_lines-nil : split_directive_lines [] ≡ []
unfolding split_directive_lines split_lines keep_lines trim_start trim_end
split_directive_lines-nil = refl

split_directive_lines-newline :
    (a : Bytes) → split_directive_lines (a ++ b'\n' ∷ []) ≡ split_directive_lines a
split_directive_lines-newline a =
    split_directive_lines-append a []
    ∙ ap (λ x. split_directive_lines a ++ x) split_directive_lines-nil
    ∙ append-nil (split_directive_lines a)

-- The text is empty or ends in a newline.
abbrev pub IsEnded : Bytes → Type 0
IsEnded text = (text ≡ []) ⊎ (front : Bytes) × (text ≡ front ++ b'\n' ∷ [])

-- What is put behind such a text adds its own lines.
pub split_directive_lines-IsEnded :
    (a b : Bytes)
    → IsEnded a
    → split_directive_lines (a ++ b) ≡ split_directive_lines a ++ split_directive_lines b
split_directive_lines-IsEnded a b (inl e) =
    ap (λ x. split_directive_lines (x ++ b)) e
    ∙ ap (λ x. x ++ split_directive_lines b)
        (sym (ap split_directive_lines e ∙ split_directive_lines-nil))
split_directive_lines-IsEnded a b (inr (front, e)) =
    ap (λ x. split_directive_lines (x ++ b)) e
    ∙ ap split_directive_lines (append_assoc front (b'\n' ∷ []) b)
    ∙ split_directive_lines-append front b
    ∙ ap (λ x. x ++ split_directive_lines b)
        (sym (ap split_directive_lines e ∙ split_directive_lines-newline front))

-- A text and a newline.
pub split_directive_lines-line :
    (a b : Bytes)
    → IsEnded a
    → split_directive_lines (a ++ (b ++ b'\n' ∷ []))
      ≡ split_directive_lines a ++ split_directive_lines b
split_directive_lines-line a b h =
    split_directive_lines-IsEnded a (b ++ b'\n' ∷ []) h
    ∙ ap (λ x. split_directive_lines a ++ x) (split_directive_lines-newline b)
