-- ===== src/Worker/Run/Limits.antt =====
-- app/resource_limits.py and the clamping of app/worker.py: what a deployment may take of its target.
use goblin_dock.Base.{
  ℕ, zero, suc, ◌+◌, ◌-◌, ◌≤◌, max, min, ◌≡◌, refl, Bool, true, false, not, Option, none, some,
  List, arith, ◌==◌, if◌then◌else◌, any, first, inl, inr, ◌⊎◌,
}
use goblin_dock.Models.{Connection}
use goblin_dock.Network.Pool.{range_from}

-- The caps of `settings`; 0 is no cap.
pub record Caps : Type 0 where
  pub max_cores : ℕ
  pub max_ram_mb : ℕ
  pub max_disk_gb : ℕ

abbrev pub or_default : ℕ → ℕ → ℕ
or_default zero fallback = fallback
or_default (suc n) fallback = suc n

-- A positive value of the connection overrides the default.
unfoldable pub effective_resource_limits : Connection → Caps → Caps
effective_resource_limits conn settings = record {
  max_cores = or_default conn.max_cores settings.max_cores;
  max_ram_mb = or_default conn.max_ram_mb settings.max_ram_mb;
  max_disk_gb = or_default conn.max_disk_gb settings.max_disk_gb;
}

unfoldable pub clamp_resource : ℕ → ℕ → ℕ
clamp_resource requested zero = max 1 requested
clamp_resource requested (suc limit) = min (max 1 requested) (suc limit)

-- `_effective_disk_gb`; a size of 0 counts as unknown.
unfoldable pub effective_disk_gb : Bool → ℕ → Option ℕ → ℕ
effective_disk_gb true requested actual = requested
effective_disk_gb false requested none = requested
effective_disk_gb false requested (some zero) = requested
effective_disk_gb false requested (some (suc n)) = suc n

-- `next_free_vmid` of app/proxmox.py: the first number of the range that the inventory does not list,
-- if the cluster's registry confirms that it is free (`is_free`); `none` is an exception.
unfoldable pub next_free_vmid : ℕ → ℕ → Option (List ℕ) → (ℕ → Bool) → Option ℕ
next_free_vmid lo hi none is_free = none
next_free_vmid lo hi (some used) is_free =
    elim (first (λ v. not (any (λ u. u == v) used)) (range_from (hi + 1 - lo) lo)) [
      | none ↦ none
      | some v ↦ if is_free v then some v else none
    ]

-- What is granted is at least one, at most the limit where there is one, and the request itself where
-- it lies between.
clamp_resource-bounds :
    (requested limit : ℕ)
    → (1 ≤ clamp_resource requested limit)
      × ((limit ≡ 0) ⊎ (clamp_resource requested limit ≤ limit))
      × (clamp_resource requested limit ≤ max 1 requested)
unfolding clamp_resource
clamp_resource-bounds requested zero = (omega arith, inl refl, omega arith)
clamp_resource-bounds requested (suc limit) = (omega arith, inr (omega arith), omega arith)
