-- ===== src/Metrics/Labels.antt =====
-- Which labels `configure` lets into the names of the metrics.
pub mod Forged
use modsecurity_proxy_wasm.Base.{
  ℕ, ◌≡◌, refl, sym, ap, ◌∙◌, inl, inr, Bool, true, false, not, ◌&&◌, ◌||◌, List, [], ◌∷◌, ◌++◌,
  arith, ◌==◌, Bool-cases, append_assoc, ==_iff, ◌⊎◌, or_true,
}
use modsecurity_proxy_wasm.Options.{MetricOptions}
use modsecurity_proxy_wasm.Text.{Bytes, codes, equal, equal_iff, starts_with, contains}
use modsecurity_proxy_wasm.Text.Laws.{contains-cons, contains_start, starts_with_self}
use modsecurity_proxy_wasm.Metrics.{
  is_reserved_identity_key, extra_label_unsafe, frags, composed, any_frag, suffix_of,
}
use modsecurity_proxy_wasm.Metrics.Bounds.{NoForge}

abbrev equals_sign : Bytes
equals_sign = b'=' ∷ []

contains_sign-cons :
    (c : ℕ) (s : Bytes) → contains (c ∷ s) equals_sign ≡ (b'=' == c || contains s equals_sign)
unfolding starts_with
contains_sign-cons c s = contains-cons equals_sign c s ∙ ground arith

-- A prefix up to the first equals sign is the whole key.
key_of_prefix :
    (g k x : Bytes)
    → contains g equals_sign ≡ false
    → contains k equals_sign ≡ false
    → starts_with (g ++ equals_sign) (k ++ (b'=' ∷ x)) ≡ true
    → g ≡ k
unfolding starts_with
key_of_prefix [] [] x hg hk h = refl
key_of_prefix [] (c ∷ k) x hg hk h = ground (arith, contains_sign-cons c k)
key_of_prefix (d ∷ g) [] x hg hk h = ground (arith, contains_sign-cons d g)
key_of_prefix (d ∷ g) (c ∷ k) x hg hk h =
    ground (arith, contains_sign-cons c k, contains_sign-cons d g, key_of_prefix g k x)

any_frag_at :
    (before after : List Bytes) (f k v : Bytes)
    → contains (composed k v) f ≡ true
    → any_frag (before ++ f ∷ after) k v ≡ true
unfolding any_frag
any_frag_at [] after f k v h = rw h
any_frag_at (x ∷ before) after f k v h = ground (arith, any_frag_at before after f k v h)

-- A name `key` for which `_key=` is a fragment makes a label unsafe.
unsafe_key :
    (before after : List Bytes) (k v : Bytes)
    → frags ≡ before ++ (b'_' ∷ (k ++ equals_sign)) ∷ after
    → extra_label_unsafe k v ≡ true
unfolding extra_label_unsafe
unsafe_key before after k v e =
    let head : starts_with (b'_' ∷ (k ++ equals_sign)) (composed k v) ≡ true =
      (rw (← append_assoc k equals_sign v) (starts_with_self (b'_' ∷ (k ++ equals_sign)) v)) in
    let hit =
      any_frag_at before after (b'_' ∷ (k ++ equals_sign)) k v
        (contains_start (b'_' ∷ (k ++ equals_sign)) (composed k v) head) in
    let found : any_frag frags k v ≡ true = ap (λ fs. any_frag fs k v) e ∙ hit in
    rw found (or_true _)

safe_sign : (k v : Bytes) → extra_label_unsafe k v ≡ false → contains k equals_sign ≡ false
unfolding extra_label_unsafe
safe_sign k v h = ground arith

reserved_cases :
    (k : Bytes)
    → is_reserved_identity_key k ≡ true
    → (k ≡ codes "waf_namespace")
      ⊎ ((k ≡ codes "waf_name") ⊎ ((k ≡ codes "engine") ⊎ (k ≡ codes "owner")))
unfolding is_reserved_identity_key
reserved_cases k h = ground (
  arith,
  equal_iff k (codes "waf_namespace"),
  equal_iff k (codes "waf_name"),
  equal_iff k (codes "engine"),
  equal_iff k (codes "owner"),
)

reserved_plain : (k v s : Bytes) → is_reserved_identity_key k ≡ true → NoForge (composed k v ++ s)
unfolding starts_with
reserved_plain k v s h = elim (reserved_cases k h) [
  | inl e ↦ rw e (refl, refl)
  | inr (inl e) ↦ rw e (refl, refl)
  | inr (inr (inl e)) ↦ rw e (refl, refl)
  | inr (inr (inr e)) ↦ rw e (refl, refl)
]

-- Where the name of a safe label's metric begins with `_key=`, `key` is the label's key.
forged_key :
    (g k v s : Bytes)
    → contains g equals_sign ≡ false
    → extra_label_unsafe k v ≡ false
    → starts_with (b'_' ∷ (g ++ equals_sign)) (composed k v ++ s) ≡ true
    → g ≡ k
unfolding starts_with
forged_key g k v s hg hs h = key_of_prefix g k (v ++ s) hg (safe_sign k v hs) (rw append_assoc at h)

not_forged :
    (g k v s : Bytes) (before after : List Bytes)
    → frags ≡ before ++ (b'_' ∷ (g ++ equals_sign)) ∷ after
    → contains g equals_sign ≡ false
    → extra_label_unsafe k v ≡ false
    → starts_with (b'_' ∷ (g ++ equals_sign)) (composed k v ++ s) ≡ false
not_forged g k v s before after e hg h =
    elim (Bool-cases (starts_with (b'_' ∷ (g ++ equals_sign)) (composed k v ++ s))) [
      | inr no_match ↦ no_match
      | inl match ↦
          let same : g ≡ k = forged_key g k v s hg h match in
          let unsafe : extra_label_unsafe k v ≡ true =
            rw (← same) (unsafe_key before after g v e) in
          absurd (cc (unsafe, h))
    ]

safe_plain : (k v s : Bytes) → extra_label_unsafe k v ≡ false → NoForge (composed k v ++ s)
unfolding contains
safe_plain k v s h =
    let to_ruleid =
      codes "_waf_namespace="
      ∷ codes "_waf_name="
      ∷ codes "_engine="
      ∷ codes "_owner="
      ∷ codes "_phase="
      ∷ [] in
    let to_tag = to_ruleid ++ codes "_ruleid=" ∷ codes "_severity=" ∷ [] in
    (
      not_forged (codes "ruleid") k v s to_ruleid (codes "_severity=" ∷ codes "_tag=" ∷ []) refl
          refl h,
      not_forged (codes "tag") k v s to_tag [] refl refl h,
    )

-- Whatever the labels, the suffix that `configure` builds does not begin like a series of a rule
-- or of a tag.
pub suffix_of-NoForge : (labels : List (Bytes × Bytes)) → NoForge (suffix_of labels)
unfolding suffix_of
suffix_of-NoForge [] = unfold starts_with in (refl, refl)
suffix_of-NoForge ((k, v) ∷ labels) = elim (Bool-cases (is_reserved_identity_key k)) [
  | inl r ↦ rw r (reserved_plain k v (suffix_of labels) r)
  | inr r ↦ elim (Bool-cases (extra_label_unsafe k v)) [
    | inl u ↦ rw (r, u) (suffix_of-NoForge labels)
    | inr u ↦ rw (r, u) (safe_plain k v (suffix_of labels) u)
  ]
]
