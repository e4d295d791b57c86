-- ===== src/Config/Includes/Agree.antt =====
-- `resolveIncludeLoad` and `resolveIncludeExpand` side by side.
use mathlib.Core.Path.{subst}
use modsecurity_proxy_wasm.Base.{
  ◌≡◌, refl, sym, ap, ◌∙◌, inl, inr, Bool, true, false, ◌||◌, List, [], ◌∷◌, ◌++◌, append-nil,
  append_assoc, Option, none, some, ◌>>=◌, Bool-cases, Option-cases, if◌then◌else◌, take, absurd,
}
use modsecurity_proxy_wasm.Text.{Bytes, codes, equal, starts_with}
use modsecurity_proxy_wasm.Config.Directives.{split_directive_lines}
use modsecurity_proxy_wasm.Config.Directives.Lines.{
  IsEnded, split_directive_lines-nil, split_directive_lines-IsEnded, split_directive_lines-line,
}
use modsecurity_proxy_wasm.Config.Includes.{
  Asset, Catalog, member, kubewaf_defaults, kubewaf_defaults_conf, Loading, load_chunk, load_once,
  load_asset, load_kubewaf_defaults, load_owasp_glob, load_glob, load_found, resolve_include_load,
  Expansion, append_once, append_kubewaf_defaults, append_owasp_glob, append_glob, append_found,
  resolve_include_expand,
}

-- A loader that lists the trimmed lines of all texts that it gets.
abbrev pub list_lines : Bytes → Bytes → List Bytes → Option (List Bytes)
list_lines label text lines = some (lines ++ split_directive_lines text)

-- The same paths are seen, and the lines loaded are those of the expanded text, which is empty or ends
-- in a newline.
abbrev pub SameText : Loading (List Bytes) → Expansion → Type 0
SameText st x = (st.seen ≡ x.seen) × ((st.rules ≡ split_directive_lines x.out) × IsEnded x.out)

-- Both fail, or both succeed with the same text.
abbrev pub Agree : Option (Loading (List Bytes)) → Option Expansion → Type 0
Agree none none = Unit
Agree none (some x) = ⊥
Agree (some st) none = ⊥
Agree (some st) (some x) = SameText st x

if-Agree :
    (c : Bool) (o p : Option (Loading (List Bytes))) (x y : Option Expansion)
    → Agree o x
    → Agree p y
    → Agree (if c then o else p) (if c then x else y)
if-Agree true o p x y a b = a
if-Agree false o p x y a b = b

abbrev defaults_front : Bytes
defaults_front = take 465 kubewaf_defaults_conf

defaults_end : kubewaf_defaults_conf ≡ defaults_front ++ b'\n' ∷ []
defaults_end = refl

>>=-Agree :
    (o : Option (Loading (List Bytes))) (f : Loading (List Bytes) → Option (Loading (List Bytes)))
    (x : Expansion) (y : Option Expansion)
    → Agree o (some x)
    → ((st : Loading (List Bytes)) → SameText st x → Agree (f st) y)
    → Agree (o >>= f) y
>>=-Agree none f x y h g = absurd h
>>=-Agree (some st) f x y h g = g st h

module _ (catalog : Catalog) where
  load_chunk_lines :
      (label text : Bytes) (st : Loading (List Bytes))
      → load_chunk catalog list_lines label text st
        ≡ some (record st { rules = st.rules ++ split_directive_lines text })
  unfolding load_chunk
  load_chunk_lines label [] st =
      ap (λ r. some (record st { rules = r }))
        (sym (ap (λ x. st.rules ++ x) split_directive_lines-nil ∙ append-nil st.rules))
  load_chunk_lines label (c ∷ text) st = refl

  load_once-Agree :
      (path label text out' : Bytes) (st : Loading (List Bytes)) (x : Expansion)
      → SameText st x
      → split_directive_lines out' ≡ split_directive_lines x.out ++ split_directive_lines text
      → IsEnded out'
      → Agree
          (load_once catalog list_lines path label text st)
          (some (if member path x.seen then x else record { out = out'; seen = path ∷ x.seen }))
  unfolding load_once
  load_once-Agree path label text out' st x (same, (lines, ended)) grown ended' =
      let known : member path st.seen ≡ member path x.seen = ap (λ s. member path s) same in
      elim (Bool-cases (member path x.seen)) [
        | inl e ↦ rw (known ∙ e, e) (same, (lines, ended))
        | inr n ↦
            rw (known ∙ n, n, load_chunk_lines label text (record st { seen = path ∷ st.seen }))
              (
                ap (λ s. path ∷ s) same,
                (ap (λ r. r ++ split_directive_lines text) lines ∙ sym grown, ended'),
              )
      ]

  append_once-Agree :
      (path label text : Bytes) (st : Loading (List Bytes)) (x : Expansion)
      → SameText st x
      → Agree (load_once catalog list_lines path label text st) (some (append_once path text x))
  unfolding append_once
  append_once-Agree path label text st x (same, (lines, ended)) =
      load_once-Agree path label text (x.out ++ (text ++ b'\n' ∷ [])) st x (same, (lines, ended))
        (split_directive_lines-line x.out text ended)
        (inr (x.out ++ text, sym (append_assoc x.out text (b'\n' ∷ []))))

  asset-Agree :
      (asset : Asset) (st : Loading (List Bytes)) (x : Expansion)
      → SameText st x
      → Agree
          (if equal asset.path (codes "@owasp_crs/_all.conf")
            then some st
            else load_asset catalog list_lines asset st)
          (some (
            if equal asset.path (codes "@owasp_crs/_all.conf")
            then x
            else append_once asset.path asset.data_text x))
  asset-Agree asset st x h = elim (Bool-cases (equal asset.path (codes "@owasp_crs/_all.conf"))) [
    | inl e ↦ rw e h
    | inr n ↦ rw n (append_once-Agree asset.path asset.path asset.data_text st x h)
  ]

  load_owasp_glob-Agree :
      (assets : List Asset) (st : Loading (List Bytes)) (x : Expansion)
      → SameText st x
      → Agree
          (load_owasp_glob catalog list_lines assets st)
          (some (append_owasp_glob catalog assets x))
  unfolding load_owasp_glob append_owasp_glob
  load_owasp_glob-Agree [] st x h = h
  load_owasp_glob-Agree (asset ∷ assets) st x h =
      >>=-Agree
        (if equal asset.path (codes "@owasp_crs/_all.conf")
          then some st
          else load_asset catalog list_lines asset st)
        (λ s. load_owasp_glob catalog list_lines assets s) _ _ (asset-Agree asset st x h)
        (λ s h'. load_owasp_glob-Agree assets s _ h')

  load_kubewaf_defaults-Agree :
      (st : Loading (List Bytes)) (x : Expansion)
      → SameText st x
      → Agree
          (load_kubewaf_defaults catalog list_lines st)
          (some (append_kubewaf_defaults catalog x))
  unfolding load_kubewaf_defaults append_kubewaf_defaults
  load_kubewaf_defaults-Agree st x (same, (lines, ended)) =
      elim (Option-cases (catalog.lookup kubewaf_defaults)) [
        | inl e ↦
            rw (e, load_kubewaf_defaults, append_kubewaf_defaults)
              (load_once-Agree kubewaf_defaults kubewaf_defaults kubewaf_defaults_conf
                (x.out ++ kubewaf_defaults_conf) st x (same, (lines, ended))
                (split_directive_lines-IsEnded x.out kubewaf_defaults_conf ended)
                (inr (
                  x.out ++ defaults_front,
                  ap (λ s. x.out ++ s) defaults_end
                      ∙ sym (append_assoc x.out defaults_front (b'\n' ∷ [])),
                )))
        | inr (asset, e) ↦
            rw (e, load_kubewaf_defaults, append_kubewaf_defaults)
              (append_once-Agree kubewaf_defaults asset.path asset.data_text st x
                (same, (lines, ended)))
      ]

  load_glob-Agree :
      (assets : List Asset) (st : Loading (List Bytes)) (x : Expansion)
      → SameText st x
      → Agree (load_glob catalog list_lines assets st) (append_glob catalog assets x)
  unfolding load_glob append_glob
  load_glob-Agree [] st x h = tt
  load_glob-Agree (asset ∷ assets) st x h = load_owasp_glob-Agree (asset ∷ assets) st x h

  -- The catalog gives an asset under its own path.
  abbrev pub KeepsPaths : Type 0
  KeepsPaths =
      (target : Bytes) (asset : Asset) → catalog.lookup target ≡ some asset → asset.path ≡ target

  load_found-Agree :
      KeepsPaths
      → (target : Bytes) (st : Loading (List Bytes)) (x : Expansion) → SameText st x
      → Agree (load_found catalog list_lines target st) (append_found catalog target x)
  load_found-Agree keeps target st x h = elim (Option-cases (catalog.lookup target)) [
    | inl e ↦ rw e tt
    | inr (asset, e) ↦ rw e (
        subst
          (λ p.
            Agree (load_once catalog list_lines p asset.path asset.data_text st)
              (some (append_once target asset.data_text x)))
          (sym (keeps target asset e)) (append_once-Agree target asset.path asset.data_text st x h))
  ]

  -- Of an include, `resolveIncludeLoad` loads what `resolveIncludeExpand` adds to the text. With a
  -- loader that accepts every chunk and lists its trimmed lines, a catalog that gives each asset under
  -- its own path, and the same paths seen and the same lines before, either both fail, or both succeed
  -- and again the same paths are seen and the lines loaded are those of the expanded text, which is
  -- empty or ends in a newline as before.
  pub resolve_include_load-resolve_include_expand :
      KeepsPaths
      → (target : Bytes) (st : Loading (List Bytes)) (x : Expansion) → SameText st x
      → Agree
          (resolve_include_load catalog list_lines target st)
          (resolve_include_expand catalog target x)
  unfolding resolve_include_load resolve_include_expand
  resolve_include_load-resolve_include_expand keeps target st x h =
      let found = load_found-Agree keeps target st x h in
      if-Agree (equal target kubewaf_defaults) _ _ _ _ (load_kubewaf_defaults-Agree st x h) (
        if-Agree (equal target (codes "@demo-conf") || equal target (codes "@ftw-conf")) _ _ _ _
          found
          (if-Agree (equal target (codes "@crs-setup-conf")) _ _ _ _ found (
            if-Agree (equal target (codes "@owasp_crs/*.conf")) _ _ _ _
              (load_glob-Agree catalog.owasp_assets st x h)
              (if-Agree (starts_with (codes "@owasp_crs/") target) _ _ _ _ found tt))))
