-- ===== src/Telemetry.antt =====
-- src/waf_config.cc: the telemetry's decisions. Doubles are a parameter.
use Prim.Native.Nat.{bit_xor}
use modsecurity_proxy_wasm.Base.{
  ℕ, ◌*◌, ◌%◌, ◌^◌, Bool, true, false, ◌||◌, [], ◌∷◌, if◌then◌else◌, ℤ, is_zero,
}
use modsecurity_proxy_wasm.Text.{Bytes, codes, contains}

-- The doubles of the machine, with the operations that the program makes on them.
pub record Floats : Type 1 where
  pub Double : Type 0
  pub of_ℕ : ℕ → Double
  pub divide : Double → Double → Double
  pub less : Double → Double → Bool
  pub less_eq : Double → Double → Bool

-- FNV-1a over 32 bits, from the hash so far.
fnv1a : ℕ → Bytes → ℕ
fnv1a h [] = h
fnv1a h (c ∷ seed) = fnv1a (bit_xor h c * 16777619 % 2 ^ 32) seed

module _ (f : Floats) where
  -- `wafTelemetrySampleAt`
  unfoldable pub sample_at : f.Double → Bytes → Bool
  unfolding fnv1a
  sample_at rate seed =
      if f.less_eq (f.of_ℕ 1) rate
      then true
      else if f.less_eq rate (f.of_ℕ 0)
      then false
      else f.less (f.divide (f.of_ℕ (fnv1a 2166136261 seed % 10000)) (f.of_ℕ 10000)) rate

-- `wafTelemetryAction`
unfoldable pub telemetry_action : Bool → Bool → ℤ → Bytes → Bytes
unfolding contains
telemetry_action false has_redirect_url status log = codes "pass"
telemetry_action true has_redirect_url status log =
    if has_redirect_url
    then codes "redirect"
    else if is_zero status || contains log (codes "drop")
    then codes "drop"
    else codes "deny"

-- `wafTelemetryLooksSecret`
unfoldable pub looks_secret : Bytes → Bool
unfolding contains
looks_secret s =
    contains s (codes "Bearer ")
    || contains s (codes "bearer ")
    || contains s (codes "Authorization")
    || contains s (codes "authorization")
    || contains s (codes "Cookie:")
    || contains s (codes "cookie:")
    || contains s (codes "Set-Cookie")
    || contains s (codes "set-cookie")
