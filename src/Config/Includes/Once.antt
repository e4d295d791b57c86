-- ===== src/Config/Includes/Once.antt =====
-- Which rule files a configuration loads, however its includes repeat.
use mathlib.Core.Path.{subst}
use modsecurity_proxy_wasm.Base.{
  ◌≡◌, refl, sym, ap, ◌∙◌, inl, inr, Bool, true, false, ◌||◌, List, [], ◌∷◌, Option, some, All,
  absurd, true≢false, or_true, Bool-cases, Option-cases, if-ind, if◌then◌else◌, >>=-ind,
}
use modsecurity_proxy_wasm.Text.{Bytes, codes, equal, equal_iff, is_empty, starts_with}
use modsecurity_proxy_wasm.Config.Batches.{apply_lines}
use modsecurity_proxy_wasm.Config.Batches.Kept.{IfSome, apply_lines-Kept}
use modsecurity_proxy_wasm.Config.Includes.{
  Asset, Catalog, member, kubewaf_defaults, kubewaf_defaults_conf, Loading, load_chunk, load_once,
  load_asset, load_kubewaf_defaults, load_owasp_glob, load_glob, load_found, resolve_include_load,
}

abbrev pub IsUnique : List Bytes → Type 0
IsUnique [] = Unit
IsUnique (p ∷ ps) = (member p ps ≡ false) × IsUnique ps

-- A loader that lists the labels of all chunks but the inline ones.
abbrev pub list_label : Bytes → Bytes → List Bytes → Option (List Bytes)
list_label label text labels =
    some (if equal label (codes "inline-directives") then labels else label ∷ labels)

abbrev AllSeen : List Bytes → List Bytes → Type 0
AllSeen labels seen = All (λ l. member l seen ≡ true) labels

-- The labels are different, and they are paths seen.
abbrev IsFresh : Loading (List Bytes) → Type 0
IsFresh st = IsUnique st.rules × AllSeen st.rules st.seen

unseen :
    (path : Bytes) (labels seen : List Bytes)
    → AllSeen labels seen
    → member path seen ≡ false
    → member path labels ≡ false
unfolding member
unseen path [] seen h n = refl
unseen path (l ∷ labels) seen h n = elim (Bool-cases (equal l path)) [
  | inl e ↦ absurd (true≢false (sym h.0 ∙ ap (λ p. member p seen) ((equal_iff l path).0 e) ∙ n))
  | inr e ↦ rw (e, unseen path labels seen h.1 n) refl
]

AllSeen-cons :
    (path : Bytes) (labels seen : List Bytes) → AllSeen labels seen → AllSeen labels (path ∷ seen)
unfolding member
AllSeen-cons path [] seen h = tt
AllSeen-cons path (l ∷ labels) seen h =
    (ap (λ b. equal path l || b) h.0 ∙ or_true (equal path l), AllSeen-cons path labels seen h.1)

member-head : (path : Bytes) (seen : List Bytes) → member path (path ∷ seen) ≡ true
unfolding member
member-head path seen = ap (λ b. b || member path seen) ((equal_iff path path).1 refl)

module _ (catalog : Catalog) where
  load_once-IsFresh :
      (path text : Bytes) (st : Loading (List Bytes))
      → IsFresh st
      → IfSome IsFresh (load_once catalog list_label path path text st)
  unfolding load_once load_chunk
  load_once-IsFresh path text st h = elim (Bool-cases (member path st.seen)) [
    | inl e ↦ rw (e, load_once) h
    | inr n ↦
        let seen' = path ∷ st.seen in
        let grown = AllSeen-cons path st.rules st.seen h.1 in
        rw (n, load_once)
          (if-ind (IfSome IsFresh) (is_empty text) {x = some (record st { seen = seen' })}
            (λ _. (h.0, grown))
            (λ _.
              if-ind (λ labels. IsUnique labels × AllSeen labels seen')
                (equal path (codes "inline-directives")) (λ _. (h.0, grown))
                (λ _.
                  ((unseen path st.rules st.seen h.1 n, h.0), (member-head path st.seen, grown)))))
  ]

  load_owasp_glob-IsFresh :
      (assets : List Asset) (st : Loading (List Bytes))
      → IsFresh st
      → IfSome IsFresh (load_owasp_glob catalog list_label assets st)
  unfolding load_owasp_glob
  load_owasp_glob-IsFresh [] st h = h
  load_owasp_glob-IsFresh (asset ∷ assets) st h =
      >>=-ind (IfSome IsFresh)
        (if equal asset.path (codes "@owasp_crs/_all.conf")
          then some st
          else load_asset catalog list_label asset st)
        tt
        λ st' e. load_owasp_glob-IsFresh assets st' (
          subst (IfSome IsFresh) e (
            if-ind (IfSome IsFresh) (equal asset.path (codes "@owasp_crs/_all.conf")) {x = some st}
              {y = load_asset catalog list_label asset st} (λ _. h)
              (λ _. load_once-IsFresh asset.path asset.data_text st h)))

  -- The catalog gives the default rules under their own path.
  abbrev pub DefaultsKeepPath : Type 0
  DefaultsKeepPath =
      (asset : Asset) → catalog.lookup kubewaf_defaults ≡ some asset → asset.path ≡ kubewaf_defaults

  load_kubewaf_defaults-IsFresh :
      DefaultsKeepPath
      → (st : Loading (List Bytes)) → IsFresh st
      → IfSome IsFresh (load_kubewaf_defaults catalog list_label st)
  unfolding load_kubewaf_defaults
  load_kubewaf_defaults-IsFresh keeps st h = elim (Option-cases (catalog.lookup kubewaf_defaults)) [
    | inl e ↦
        rw (e, load_kubewaf_defaults)
          (load_once-IsFresh kubewaf_defaults kubewaf_defaults_conf st h)
    | inr (asset, e) ↦
        rw (e, load_kubewaf_defaults)
          (subst
            (λ p. IfSome IsFresh (load_once catalog list_label p asset.path asset.data_text st))
            (keeps asset e) (load_once-IsFresh asset.path asset.data_text st h))
  ]

  load_glob-IsFresh :
      (assets : List Asset) (st : Loading (List Bytes))
      → IsFresh st
      → IfSome IsFresh (load_glob catalog list_label assets st)
  unfolding load_glob
  load_glob-IsFresh [] st h = tt
  load_glob-IsFresh (asset ∷ assets) st h = load_owasp_glob-IsFresh (asset ∷ assets) st h

  load_found-IsFresh :
      (target : Bytes) (st : Loading (List Bytes))
      → IsFresh st
      → IfSome IsFresh (load_found catalog list_label target st)
  load_found-IsFresh target st h =
      >>=-ind (IfSome IsFresh) (catalog.lookup target) tt
        λ asset e. load_once-IsFresh asset.path asset.data_text st h

  if-IsFresh :
      (c : Bool) (x y : Option (Loading (List Bytes)))
      → IfSome IsFresh x
      → IfSome IsFresh y
      → IfSome IsFresh (if c then x else y)
  if-IsFresh true x y a b = a
  if-IsFresh false x y a b = b

  resolve_include_load-IsFresh :
      DefaultsKeepPath
      → (target : Bytes) (st : Loading (List Bytes)) → IsFresh st
      → IfSome IsFresh (resolve_include_load catalog list_label target st)
  unfolding resolve_include_load
  resolve_include_load-IsFresh keeps target st h =
      let found = load_found-IsFresh target st h in
      if-IsFresh (equal target kubewaf_defaults) _ _ (load_kubewaf_defaults-IsFresh keeps st h) (
        if-IsFresh (equal target (codes "@demo-conf") || equal target (codes "@ftw-conf")) _ _ found
          (if-IsFresh (equal target (codes "@crs-setup-conf")) _ _ found (
            if-IsFresh (equal target (codes "@owasp_crs/*.conf")) _ _
              (load_glob-IsFresh catalog.owasp_assets st h)
              (if-IsFresh (starts_with (codes "@owasp_crs/") target) _ _ found tt))))

  load_chunk-IsFresh :
      (text : Bytes) (st : Loading (List Bytes))
      → IsFresh st
      → IfSome IsFresh (load_chunk catalog list_label (codes "inline-directives") text st)
  unfolding load_chunk equal
  load_chunk-IsFresh text st h =
      if-ind (IfSome IsFresh) (is_empty text) {x = some st} {y = some st} (λ _. h) (λ _. h)

  -- Whatever its lines include, and however often, `applyJsonConfig` loads no rule file twice: with a
  -- loader that lists the labels of the files, no label comes twice. The catalog is asked to give the
  -- default rules under their own path.
  pub apply_lines-IsUnique :
      DefaultsKeepPath
      → (lines : List Bytes) (st : Loading (List Bytes))
      → apply_lines
          (load_chunk catalog list_label)
          (resolve_include_load catalog list_label)
          lines
          (record { rules = []; seen = [] })
        ≡ some st
      → IsUnique st.rules
  apply_lines-IsUnique keeps lines st e =
      (subst (IfSome IsFresh) e (
        apply_lines-Kept (load_chunk catalog list_label) (resolve_include_load catalog list_label)
          IsFresh load_chunk-IsFresh (resolve_include_load-IsFresh keeps) lines
          (record { rules = []; seen = [] }) (tt, tt))).0
