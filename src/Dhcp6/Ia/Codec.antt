-- ===== src/Dhcp6/Ia/Codec.antt =====
-- Round trips of the IA Address and IA Prefix options.
use dhcp_server.Base.{ℕ, suc, ◌^◌, ◌<◌, ◌≡◌, arith, ◌++◌, length, length-append}
use dhcp_server.Base.{take_all, take-append, drop-append, le→ltb}
use dhcp_server.Base.Outcome.{ok}
use dhcp_server.Base.Wire.{Bytes, u32, be32-u32}
use dhcp_server.Net.{copy_zeroed-to16}
use dhcp_server.Dhcp6.Ia.{build_iaaddress, parse_iaaddress, build_iaprefix, parse_iaprefix}

-- ParseIAAddress reads back the address and the lifetimes that BuildIAAddress wrote.
pub parse_iaaddress-build_iaaddress :
    (ip : Bytes) (preferred valid : ℕ)
    → length ip ≡ 16
    → preferred < 2 ^ 32
    → valid < 2 ^ 32
    → parse_iaaddress (build_iaaddress ip preferred valid) ≡ ok (ip, preferred, valid)
unfolding parse_iaaddress build_iaaddress
parse_iaaddress-build_iaaddress ip preferred valid h p v =
    let tail = u32 preferred ++ u32 valid in
    rw (
      copy_zeroed-to16 ip h,
      take-append 16 ip tail h,
      drop-append 16 ip tail h,
      be32-u32 preferred p,
      be32-u32 valid v,
      le→ltb (length (ip ++ tail)) 24 (omega (arith, length-append ip tail)),
    )

-- ParseIAPrefix reads back the prefix, its length and the lifetimes that BuildIAPrefix wrote.
pub parse_iaprefix-build_iaprefix :
    (len : ℕ) (prefix : Bytes) (preferred valid : ℕ)
    → length prefix ≡ 16
    → preferred < 2 ^ 32
    → valid < 2 ^ 32
    → parse_iaprefix (build_iaprefix len prefix preferred valid)
      ≡ ok (len, prefix, preferred, valid)
unfolding parse_iaprefix build_iaprefix
parse_iaprefix-build_iaprefix len prefix preferred valid h p v = rw (
  copy_zeroed-to16 prefix h,
  take_all 16 prefix (omega arith),
  be32-u32 preferred p,
  be32-u32 valid v,
  le→ltb (suc (suc (suc (suc (suc (suc (suc (suc (suc (length prefix)))))))))) 25 (omega arith),
)
