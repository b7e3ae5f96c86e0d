-- ===== src/Transport/Manager/Ratios.antt =====
-- The ratios of `CacheStats` in crates/transport/src/manager.rs, over the floating point numbers as a
-- parameter.
use zeroio.Common.{ℕ, ltb, if◌then◌else◌}
use zeroio.Transport.Manager.Expiry.{CacheStats}

-- `f64`: the conversion with `as`, the division, and the number 0.0.
pub record Floats (F : Type 0) : Type 0 where
  pub of_usize : ℕ → F
  pub divide : F → F → F
  pub nothing : F

module _ {F : Type 0} (floats : Floats F) where
  abbrev ratio : ℕ → ℕ → F
  ratio part whole =
      if ltb 0 whole
      then floats.divide (floats.of_usize part) (floats.of_usize whole)
      else floats.nothing

  unfoldable pub utilization : CacheStats → F
  utilization s = ratio s.size s.capacity

  unfoldable pub active_ratio : CacheStats → F
  active_ratio s = ratio s.active_entries s.size
