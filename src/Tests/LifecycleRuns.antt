-- ===== src/Tests/LifecycleRuns.antt =====
-- Runs of the sweeps, the clean-up and sequences of steps, and witnesses of their theorems.
use dhcp_server.Base.{◌≡◌, refl, true, [], ◌∷◌, arith}
use dhcp_server.Base.Rows.{any, reject}
use dhcp_server.Store.V6.{V6Lease, V6Prefix}
use dhcp_server.Store.{is_active, is_offered, Lease, declined, lease_blocks_reuse, blocks, or_else}
use dhcp_server.Store.Allocate.{or_default, new_lease}
use dhcp_server.Store.Lifecycle.{
  ScopeTimes, retention, is_garbage, cleanup_expired_leases, release_expired_leases,
}
use dhcp_server.Store.Lifecycle.Sweep.{cleanup_expired_leases-mem}
use dhcp_server.Store.Lifecycle.Sweep.Pools.{allocate_ipv4-swept}
use dhcp_server.Store.Lifecycle.{release_expired_v6_leases, release_expired_v6_prefixes}
use dhcp_server.Store.Pool.{allocate_ipv4}
use dhcp_server.Store.V6.Pool.{allocate_ipv6}
use dhcp_server.Store.V6.Prefix.{is_used_prefix}
use dhcp_server.Tests.StoreRuns.{office}
use dhcp_server.Base.{none}
use dhcp_server.Store.Steps.{Reach, here, step, allocated, swept}
use dhcp_server.Store.Holders.{holder, IsGranted, allocate_v4_lease-IsGranted}
use dhcp_server.Store.V6.{blocks_v6}
use dhcp_server.Store.V6.Prefix.{is_prefix_in_use}
use dhcp_server.Tests.StoreRuns.{printer, camera, tables, tables-HasConstraints, laptop}
use dhcp_server.Tests.StoreRuns.{laptop_lease, laptop-allocated}
use dhcp_server.Tests.V6Runs.{phone, delegated}
use mathlib.Core.List.{Memᴰ}
use mathlib.Core.List.Memᴰ

abbrev hourly : ScopeTimes
hourly = record { id = 1; lease_time = 600; max_lease_time = 3600 }

allocate_ipv4-swept_example :
    (allocate_ipv4 12 (release_expired_leases 9200000 (printer ∷ [])) [] office none 9500000
      ≡ allocate_ipv4 12 (printer ∷ []) [] office none 9500000)
    × (allocate_ipv6 12 (release_expired_v6_leases 9200000 (phone ∷ [])) [] office none 9500000
        ≡ allocate_ipv6 12 (phone ∷ []) [] office none 9500000)
    × (is_used_prefix
          (release_expired_v6_prefixes 9200000 (delegated ∷ []))
          1
          9500000
          delegated.prefix
        ≡ is_used_prefix (delegated ∷ []) 1 9500000 delegated.prefix)
allocate_ipv4-swept_example =
    allocate_ipv4-swept 12 12 (printer ∷ []) [] (phone ∷ []) [] (delegated ∷ []) office none
      delegated.prefix 9200000 9500000 (omega arith)

-- The lease ended a second ago; its address was declined a minute before.
abbrev quarantined : Lease
quarantined = record printer { state = declined; ends_at = 7000000; updated_at = 1000000 }

abbrev quarantined_phone : V6Lease
quarantined_phone = record phone { state = declined; ends_at = 7000000; updated_at = 1000000 }

abbrev renewed_prefix : V6Prefix
renewed_prefix = record delegated { ends_at = 4000000000 }

cleanup_expired_leases-mem_example :
    Memᴰ quarantined
      (cleanup_expired_leases
        (hourly ∷ [])
        3000000000
        (quarantined ∷ [])
        (quarantined_phone ∷ [])
        (renewed_prefix ∷ [])).0
    × Memᴰ quarantined_phone
        (cleanup_expired_leases
          (hourly ∷ [])
          3000000000
          (quarantined ∷ [])
          (quarantined_phone ∷ [])
          (renewed_prefix ∷ [])).1
    × Memᴰ renewed_prefix
        (cleanup_expired_leases
          (hourly ∷ [])
          3000000000
          (quarantined ∷ [])
          (quarantined_phone ∷ [])
          (renewed_prefix ∷ [])).2
unfolding retention or_default blocks lease_blocks_reuse or_else blocks_v6 is_prefix_in_use
    is_active is_offered
cleanup_expired_leases-mem_example =
    cleanup_expired_leases-mem (hourly ∷ []) 3000000000 (quarantined ∷ []) (quarantined_phone ∷ [])
      (renewed_prefix ∷ []) quarantined quarantined_phone renewed_prefix
      (λ x m. rw (Memᴰ.eq_of_singleton m) (omega arith)) (omega arith) (omega arith)
      (Memᴰ.head refl) refl (omega arith) (omega arith) (Memᴰ.head refl) refl (omega arith)
      (Memᴰ.head refl) refl

-- A scope whose leases last five minutes at most.
abbrev brief : ScopeTimes
brief = record { id = 1; lease_time = 300; max_lease_time = 300 }

-- An address that was declined at second 100, the lease would have ended at second 300.
abbrev rejected : Lease
rejected = record printer { state = declined; ends_at = 300000000; updated_at = 100000000 }

-- At second 700 the clean-up deletes the row, though its quarantine lasts until second 3700.
quarantine_deleted :
    (blocks rejected 700000000 ≡ true)
    × (cleanup_expired_leases (brief ∷ []) 700000000 (rejected ∷ []) [] [] ≡ ([], [], []))
unfolding blocks lease_blocks_reuse cleanup_expired_leases reject is_garbage any retention
    or_default
quarantine_deleted = (refl, refl)

-- An allocation and a sweep.
abbrev pub laptop_run :
    Reach (camera ∷ []) (printer ∷ []) (release_expired_leases 5 (printer ∷ laptop_lease ∷ []))
laptop_run =
    step (printer ∷ laptop_lease ∷ []) _
      (step (printer ∷ []) (printer ∷ laptop_lease ∷ []) here (
        allocated laptop (printer ∷ []) laptop_lease (printer ∷ laptop_lease ∷ [])
          laptop-allocated))
      (swept 5 (printer ∷ laptop_lease ∷ []))

allocate_v4_lease-IsGranted_example :
    IsGranted
      (holder (printer ∷ []) 1000000 1)
      (holder (printer ∷ laptop_lease ∷ []) 1000000 1)
      9
      14
unfolding new_lease
allocate_v4_lease-IsGranted_example =
    allocate_v4_lease-IsGranted laptop tables laptop_lease (printer ∷ laptop_lease ∷ [])
      tables-HasConstraints laptop-allocated
