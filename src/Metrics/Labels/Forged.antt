-- ===== src/Metrics/Labels/Forged.antt =====
-- A pair of labels forges what no label may on its own.
use modsecurity_proxy_wasm.Base.{◌≡◌, true, false, [], ◌∷◌, ◌++◌, append_assoc}
use modsecurity_proxy_wasm.Text.{Bytes, codes, contains}
use modsecurity_proxy_wasm.Text.Laws.{contains_middle}
use modsecurity_proxy_wasm.Metrics.{is_reserved_identity_key, extra_label_unsafe, suffix_of}

suffix_of_two :
    (k v w : Bytes)
    → is_reserved_identity_key k ≡ false
    → extra_label_unsafe k (v ++ codes "_waf") ≡ false
    → extra_label_unsafe (codes "name") w ≡ false
    → suffix_of ((k, v ++ codes "_waf") ∷ (codes "name", w) ∷ [])
      ≡ (b'_' ∷ (k ++ (b'=' ∷ v))) ++ (codes "_waf_name=" ++ (w ++ []))
unfolding suffix_of is_reserved_identity_key
suffix_of_two k v w r h g = rw (r, h, g) (simp append_assoc)

-- Take any two labels that pass the check, the first with a value that ends in `_waf` and a key
-- that is not reserved, the second with the key `name`: together they put `_waf_name=` into the
-- suffix, the fragment that the check is there to keep out.
pub suffix_of_forges :
    (k v w : Bytes)
    → is_reserved_identity_key k ≡ false
    → extra_label_unsafe k (v ++ codes "_waf") ≡ false
    → extra_label_unsafe (codes "name") w ≡ false
    → contains (suffix_of ((k, v ++ codes "_waf") ∷ (codes "name", w) ∷ [])) (codes "_waf_name=")
      ≡ true
suffix_of_forges k v w r h g =
    rw (suffix_of_two k v w r h g)
      (contains_middle (b'_' ∷ (k ++ (b'=' ∷ v))) (codes "_waf_name=") (w ++ []))
