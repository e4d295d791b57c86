-- ===== src/Config/Includes.antt =====
-- src/waf_config.cc: what an `Include` loads, or adds to the expanded text. The catalog of rule files
-- is generated by the build and is a parameter, and so is the loader that the caller passes.
pub mod Once
pub mod Agree
use modsecurity_proxy_wasm.Base.{
  Bool, false, ◌||◌, List, [], ◌∷◌, ◌++◌, Option, none, some, if◌then◌else◌, ◌>>=◌,
}
use modsecurity_proxy_wasm.Text.{Bytes, codes, is_empty, equal, starts_with}

-- `RuleAsset`
pub record Asset : Type 0 where
  pub path : Bytes
  pub data_text : Bytes

-- `lookup`, and the assets that `foreach_owasp_crs` visits, in order; it stops where the function
-- that it calls returns false.
pub record Catalog : Type 0 where
  pub lookup : Bytes → Option Asset
  pub owasp_assets : List Asset

-- `seen.count(path)`
unfoldable pub member : Bytes → List Bytes → Bool
member path [] = false
member path (p ∷ ps) = equal p path || member path ps

-- `kKubeWafDefaultsConf`
abbrev pub kubewaf_defaults_conf : Bytes
kubewaf_defaults_conf =
    codes
      "# kubeWAF production baseline (virtual path: Include @kubewaf-defaults)\nSecTmpDir /modsecurity-proxy-wasm-rules\nSecDataDir /modsecurity-proxy-wasm-rules\nSecRequestBodyAccess On\nSecRequestBodyLimit 13107200\nSecRequestBodyLimitAction ProcessPartial\nSecRequestBodyNoFilesLimit 131072\nSecResponseBodyAccess On\nSecResponseBodyMimeType text/plain text/html text/xml application/json\nSecResponseBodyLimit 524288\nSecResponseBodyLimitAction ProcessPartial\nSecAuditEngine Off\n"

abbrev pub kubewaf_defaults : Bytes
kubewaf_defaults = codes "@kubewaf-defaults"

-- The rules that the loader has made, and the paths of the assets loaded.
pub record Loading (S : Type 0) : Type 0 where
  pub rules : S
  pub seen : List Bytes

module _ {S : Type 0} (catalog : Catalog) (loader : Bytes → Bytes → S → Option S) where
  -- `loadChunk`; a failed load stands as `none`, and its error is not empty.
  unfoldable pub load_chunk : Bytes → Bytes → Loading S → Option (Loading S)
  load_chunk label text st =
      let loaded : Option (Loading S) = do
        rules ← loader label text st.rules
        some (record st { rules = rules })
      in if is_empty text then some st else loaded

  -- The assets of a path are loaded once.
  unfoldable pub load_once : Bytes → Bytes → Bytes → Loading S → Option (Loading S)
  load_once path label text st =
      if member path st.seen
      then some st
      else load_chunk label text (record st { seen = path ∷ st.seen })

  -- `loadAsset`
  abbrev pub load_asset : Asset → Loading S → Option (Loading S)
  load_asset asset st = load_once asset.path asset.path asset.data_text st

  -- `loadKubeWafDefaults`
  unfoldable pub load_kubewaf_defaults : Loading S → Option (Loading S)
  load_kubewaf_defaults st = elim (catalog.lookup kubewaf_defaults) [
    | none ↦ load_once kubewaf_defaults kubewaf_defaults kubewaf_defaults_conf st
    | some asset ↦ load_once kubewaf_defaults asset.path asset.data_text st
  ]

  -- `foreach_owasp_crs` with `loadOwaspCrsGlob`
  unfoldable pub load_owasp_glob : List Asset → Loading S → Option (Loading S)
  load_owasp_glob [] st = some st
  load_owasp_glob (asset ∷ assets) st = do
    st' ← if equal asset.path (codes "@owasp_crs/_all.conf") then some st else load_asset asset st
    load_owasp_glob assets st'

  -- A glob needs one asset at least.
  unfoldable pub load_glob : List Asset → Loading S → Option (Loading S)
  load_glob [] st = none
  load_glob (asset ∷ assets) st = load_owasp_glob (asset ∷ assets) st

  -- The asset that the catalog has for the target.
  abbrev pub load_found : Bytes → Loading S → Option (Loading S)
  load_found target st = do asset ← catalog.lookup target; load_asset asset st

  -- `resolveIncludeLoad`
  unfoldable pub resolve_include_load : Bytes → Loading S → Option (Loading S)
  resolve_include_load target st =
      if equal target kubewaf_defaults
      then load_kubewaf_defaults st
      else if equal target (codes "@demo-conf") || equal target (codes "@ftw-conf")
      then load_found target st
      else if equal target (codes "@crs-setup-conf")
      then load_found target st
      else if equal target (codes "@owasp_crs/*.conf")
      then load_glob catalog.owasp_assets st
      else if starts_with (codes "@owasp_crs/") target
      then load_found target st
      else none

-- The expanded text, and the paths seen.
pub record Expansion : Type 0 where
  pub out : Bytes
  pub seen : List Bytes

-- `out.append(...)` and the newline, once for a path.
unfoldable pub append_once : Bytes → Bytes → Expansion → Expansion
append_once path text x =
    if member path x.seen
    then x
    else record { out = x.out ++ (text ++ b'\n' ∷ []); seen = path ∷ x.seen }

module _ (catalog : Catalog) where
  -- `appendKubeWafDefaults`: the text in the source ends in a newline.
  unfoldable pub append_kubewaf_defaults : Expansion → Expansion
  append_kubewaf_defaults x = elim (catalog.lookup kubewaf_defaults) [
    | some asset ↦ append_once kubewaf_defaults asset.data_text x
    | none ↦
        if member kubewaf_defaults x.seen
        then x
        else record { out = x.out ++ kubewaf_defaults_conf; seen = kubewaf_defaults ∷ x.seen }
  ]

  -- `foreach_owasp_crs` with `appendOwaspCrsGlobExpand`
  unfoldable pub append_owasp_glob : List Asset → Expansion → Expansion
  append_owasp_glob [] x = x
  append_owasp_glob (asset ∷ assets) x = append_owasp_glob assets (
      if equal asset.path (codes "@owasp_crs/_all.conf")
      then x
      else append_once asset.path asset.data_text x)

  unfoldable pub append_glob : List Asset → Expansion → Option Expansion
  append_glob [] x = none
  append_glob (asset ∷ assets) x = some (append_owasp_glob (asset ∷ assets) x)

  -- The asset that the catalog has for the target, whose path is taken from the target.
  abbrev pub append_found : Bytes → Expansion → Option Expansion
  append_found target x = do
    asset ← catalog.lookup target
    some (append_once target asset.data_text x)

  -- `resolveIncludeExpand`
  unfoldable pub resolve_include_expand : Bytes → Expansion → Option Expansion
  resolve_include_expand target x =
      if equal target kubewaf_defaults
      then some (append_kubewaf_defaults x)
      else if equal target (codes "@demo-conf") || equal target (codes "@ftw-conf")
      then append_found target x
      else if equal target (codes "@crs-setup-conf")
      then append_found target x
      else if equal target (codes "@owasp_crs/*.conf")
      then append_glob catalog.owasp_assets x
      else if starts_with (codes "@owasp_crs/") target
      then append_found target x
      else none
