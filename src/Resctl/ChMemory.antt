-- ===== src/Resctl/ChMemory.antt =====
-- internal/chmemory/config.go: the memory capacity in Cloud Hypervisor's VM configuration.
use sandboxer.Prelude.{
  ℕ, ◌+◌, ◌^◌, ◌%◌, Option, none, some, List, [], ◌∷◌, Bool, true, false, ◌==◌, leb, if◌then◌else◌,
  ◌||◌, not,
}

pub record Zone : Type 0 where
  pub size : ℕ
  pub hotplug_size : Option ℕ
  pub hotplugged_size : Option ℕ

-- `zones` is none for a nil slice.
pub record Config : Type 0 where
  pub size : ℕ
  pub hotplug_size : Option ℕ
  pub hotplugged_size : Option ℕ
  pub zones : Option (List Zone)

-- The errors of TotalSize.
pub data ConfigError : Type 0 where
  hotplug zones_with_size no_zones zone_hotplug capacity_overflow zero_capacity : ConfigError

pub data Capacity : Type 0 where
  capacity_of : ℕ → Capacity
  bad_config : ConfigError → Capacity

-- p != nil && *p != 0.
unfoldable pub nonzero : Option ℕ → Bool
nonzero none = false
nonzero (some n) = not (n == 0)

-- The loop over the zones, with the total so far; bits.Add64 reports the carry.
unfoldable pub add_zones : List Zone → ℕ → Capacity
unfolding nonzero
add_zones [] total = if total == 0 then bad_config zero_capacity else capacity_of total
add_zones (z ∷ zs) total =
    let rest = add_zones zs ((total + z.size) % 2 ^ 64) in
    if nonzero z.hotplug_size || nonzero z.hotplugged_size
    then bad_config zone_hotplug
    else if leb (2 ^ 64) (total + z.size)
    then bad_config capacity_overflow
    else rest

unfoldable pub zones_total : Option (List Zone) → Capacity
zones_total none = bad_config no_zones
zones_total (some []) = bad_config no_zones
zones_total (some (z ∷ zs)) = add_zones (z ∷ zs) 0

is_nil : Option (List Zone) → Bool
is_nil none = true
is_nil (some zs) = false

unfoldable pub total_size : Config → Capacity
unfolding is_nil
total_size c =
    if nonzero c.hotplug_size || nonzero c.hotplugged_size
    then bad_config hotplug
    else if not (c.size == 0)
    then (if is_nil c.zones then capacity_of c.size else bad_config zones_with_size)
    else zones_total c.zones
