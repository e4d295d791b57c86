-- ===== src/Vfs/Paths.antt =====
-- Which phrase file a path stands for (`modsecurity_proxy_wasm_resolve_data_file`).
use modsecurity_proxy_wasm.Base.{
  ℕ, ◌≡◌, refl, ap, ◌∙◌, [], ◌∷◌, ◌++◌, some, none, inl, inr, Bool-cases, ==_refl,
}
use modsecurity_proxy_wasm.Text.Laws.{Lacks}
use modsecurity_proxy_wasm.Text.{Bytes, equal, equal_iff}
use modsecurity_proxy_wasm.Config.Includes.{Catalog}
use modsecurity_proxy_wasm.Config.DataFiles.{Files, assign}
use modsecurity_proxy_wasm.Vfs.{behind_last, base_name, find_file, file_of_base, resolve_data_file}

behind_last-Lacks : (b : ℕ) (s : Bytes) → Lacks b s → behind_last b s ≡ none
unfolding behind_last
behind_last-Lacks b [] h = refl
behind_last-Lacks b (c ∷ s) h = rw (behind_last-Lacks b s h.1, h.0) refl

behind_last-append : (b : ℕ) (dir s : Bytes) → Lacks b s → behind_last b (dir ++ b ∷ s) ≡ some s
unfolding behind_last
behind_last-append b [] s h = rw (behind_last-Lacks b s h, ==_refl b) refl
behind_last-append b (c ∷ dir) s h = rw (behind_last-append b dir s h) refl

-- A name without separators is its own base name, and that of every path that ends in it.
base_name-Lacks : (s : Bytes) → Lacks b'/' s → Lacks b'\\' s → base_name s ≡ s
unfolding base_name
base_name-Lacks s h k = rw (behind_last-Lacks b'/' s h, behind_last-Lacks b'\\' s k) refl

base_name-append : (dir s : Bytes) → Lacks b'/' s → Lacks b'\\' s → base_name (dir ++ b'/' ∷ s) ≡ s
unfolding base_name
base_name-append dir s h k = rw (behind_last-append b'/' dir s h, behind_last-Lacks b'\\' s k) refl

-- The directory of a path plays no part: the path stands for the file of its last component, where
-- that holds no separator, or for none.
pub resolve_data_file_dir :
    (catalog : Catalog) (runtime : Files) (dir s : Bytes)
    → Lacks b'/' s
    → Lacks b'\\' s
    → resolve_data_file catalog runtime (dir ++ b'/' ∷ s) ≡ resolve_data_file catalog runtime s
unfolding resolve_data_file
resolve_data_file_dir catalog runtime dir s h k =
    rw (base_name-append dir s h k, base_name-Lacks s h k) refl

find_file-assign :
    (name text : Bytes) (files : Files) → find_file name (assign name text files) ≡ some text
unfolding find_file assign
find_file-assign name text [] = rw ((equal_iff name name).1 refl) refl
find_file-assign name text ((n, t) ∷ files) = elim (Bool-cases (equal n name)) [
  | inl e ↦ rw (e, (equal_iff name name).1 refl) refl
  | inr e ↦ rw (e, e) (find_file-assign name text files)
]

file_of_base-assign :
    (catalog : Catalog) (files : Files) (text : Bytes) (c : ℕ) (s : Bytes)
    → file_of_base catalog (assign (c ∷ s) text files) (c ∷ s) ≡ some text
unfolding file_of_base
file_of_base-assign catalog files text c s = rw (find_file-assign (c ∷ s) text files) refl

-- A file of the configuration, whose name is not empty and holds no separator, is what every path
-- that ends in a slash and its name stands for, whatever the catalog of the build holds under it.
pub resolve_data_file-assign :
    (catalog : Catalog) (files : Files) (dir text : Bytes) (c : ℕ) (s : Bytes)
    → Lacks b'/' (c ∷ s)
    → Lacks b'\\' (c ∷ s)
    → resolve_data_file catalog (assign (c ∷ s) text files) (dir ++ b'/' ∷ c ∷ s) ≡ some text
unfolding resolve_data_file
resolve_data_file-assign catalog files dir text c s h k =
    ap (file_of_base catalog (assign (c ∷ s) text files)) (base_name-append dir (c ∷ s) h k)
    ∙ file_of_base-assign catalog files text c s
