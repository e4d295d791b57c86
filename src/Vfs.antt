-- ===== src/Vfs.antt =====
-- src/wasm_vfs.cc: the paths of rule references, and the phrase files in memory.
pub mod Paths
use modsecurity_proxy_wasm.Base.{
  ℕ, Bool, true, false, not, ◌&&◌, ◌||◌, List, [], ◌∷◌, ◌++◌, Option, none, some, if◌then◌else◌,
  ◌>>=◌, drop, ◌==◌,
}
use modsecurity_proxy_wasm.Text.{Bytes, codes, is_empty, equal, starts_with}
use modsecurity_proxy_wasm.Config.Includes.{Catalog}
use modsecurity_proxy_wasm.Config.DataFiles.{Files}

-- `kRulesDir`
abbrev pub rules_dir : Bytes
rules_dir = codes "/modsecurity-proxy-wasm-rules"

-- What `ruleRefPathImpl` appends to the directory; the empty label stands for a null pointer too.
unfoldable pub rule_ref_name : Bytes → Bytes
rule_ref_name [] = codes "rules.conf"
rule_ref_name (c ∷ l) =
    let label = c ∷ l in
    if equal label (codes "inline-directives")
    then codes "inline.conf"
    else if equal label (codes "@demo-conf")
    then codes "demo-conf.conf"
    else if equal label (codes "@kubewaf-defaults")
    then codes "kubewaf-defaults.conf"
    else if equal label (codes "@crs-setup-conf")
    then codes "crs-setup.conf"
    else if starts_with (codes "@owasp_crs/") label
    then drop 11 label
    else if equal label (codes "plain-config")
    then codes "plain.conf"
    else if c == b'@'
    then l
    else label

-- `modsecurity_proxy_wasm_rule_ref_path`
unfoldable pub rule_ref_path : Bytes → Bytes
rule_ref_path label = rules_dir ++ (b'/' ∷ rule_ref_name label)

-- `std::strrchr`: the text behind the last `b`, or the whole text.
unfoldable pub behind_last : ℕ → Bytes → Option Bytes
behind_last b [] = none
behind_last b (c ∷ s) = elim (behind_last b s) [
  | some t ↦ some t
  | none ↦ if c == b then some s else none
]

abbrev pub or_whole : Option Bytes → Bytes → Bytes
or_whole none s = s
or_whole (some t) s = t

unfoldable pub base_name : Bytes → Bytes
base_name name =
    let base = or_whole (behind_last b'/' name) name in or_whole (behind_last b'\\' base) base

-- `modsecurity_proxy_wasm_set_runtime_data_files` and `modsecurity_proxy_wasm_clear_runtime_data_files`,
-- on `g_runtime_data_files`
unfoldable pub set_runtime_data_files : Files → Files → Files
set_runtime_data_files files runtime = files

unfoldable pub clear_runtime_data_files : Files → Files
clear_runtime_data_files runtime = []

-- `find` in the map of the runtime files
unfoldable pub find_file : Bytes → Files → Option Bytes
find_file name [] = none
find_file name ((n, text) ∷ files) =
    let rest = find_file name files in if equal n name then some text else rest

-- The runtime file of a base name, or the one in the catalog.
unfoldable pub file_of_base : Catalog → Files → Bytes → Option Bytes
file_of_base catalog runtime base =
    let embedded : Option Bytes = do
      asset ← catalog.lookup (codes "@crs-data/" ++ base)
      some asset.data_text
    in let found : Option Bytes = elim (find_file base runtime) [
      | some text ↦ some text
      | none ↦ embedded
    ] in
      if is_empty base then none else found

-- `modsecurity_proxy_wasm_resolve_data_file`, with `g_runtime_data_files`. The empty name stands for a
-- null pointer too.
unfoldable pub resolve_data_file : Catalog → Files → Bytes → Option Bytes
resolve_data_file catalog runtime name = file_of_base catalog runtime (base_name name)
