-- ===== src/Tests/Uint128Runs.antt =====
-- Witnesses of the theorems on 128-bit numbers.
use dhcp_server.Base.{◌+◌, ◌*◌, ◌%◌, ◌^◌, ◌<◌, ◌≡◌, ◌↔◌, refl, arith}
use dhcp_server.Store.Uint128.{
  Uint128, less, same, cmp, ip_add_one, ip_add_n, prefix_candidate, uint128_to_ip,
}
use dhcp_server.Store.Uint128.Sum.{
  IsUint128, cmp-uint128_to_ip, ip_add_n-uint128_to_ip, prefix_candidate-uint128_to_ip,
}

-- 2001:db8:: and the last address of its first /64.
abbrev network : Uint128
network = record { hi = 0x20010db800000000; lo = 0 }

abbrev last : Uint128
last = record { hi = 0x20010db800000000; lo = 0xffffffffffffffff }

network-IsUint128 : IsUint128 network
network-IsUint128 = record { hi_fits = omega arith; lo_fits = omega arith }

last-IsUint128 : IsUint128 last
last-IsUint128 = record { hi_fits = omega arith; lo_fits = omega arith }

last-next : ip_add_one last ≡ record { hi = 0x20010db800000001; lo = 0 }
unfolding ip_add_one
last-next = refl

cmp-value_example :
    ((cmp network last ≡ less) ↔ (uint128_to_ip network < uint128_to_ip last))
    × ((cmp network last ≡ same) ↔ (uint128_to_ip network ≡ uint128_to_ip last))
cmp-value_example = cmp-uint128_to_ip network last network-IsUint128 last-IsUint128

ip_add_n-value_example :
    (uint128_to_ip (ip_add_one last) ≡ (uint128_to_ip last + 1) % 2 ^ 128)
    × (uint128_to_ip (ip_add_n last 7) ≡ (uint128_to_ip last + 7) % 2 ^ 128)
ip_add_n-value_example = ip_add_n-uint128_to_ip last 7 last-IsUint128 (omega arith)

prefix_candidate-value_example :
    uint128_to_ip (prefix_candidate network 64 3) ≡ (uint128_to_ip network + 3 * 2 ^ 64) % 2 ^ 128
prefix_candidate-value_example =
    prefix_candidate-uint128_to_ip network 3 network-IsUint128 (omega arith)
