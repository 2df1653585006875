-- ===== src/Dns/Handler.antt =====
-- internal/dns/server.go: handleQuery, with the two look-ups of the store, `strings.ToLower` and
-- `strconv.Atoi` as arguments.
pub mod Answer
use dhcp_server.Base.{
  ℕ, zero, suc, ◌+◌, ◌-◌, ◌*◌, ltb, leb, ◌==◌, not, ◌&&◌, ◌||◌, Bool, true, false,
}
use dhcp_server.Base.{
  List, [], ◌∷◌, ◌++◌, map, Option, none, some, if◌then◌else◌, length, take, drop, get_or,
}
use dhcp_server.Base.{◌≡◌, ◌≢◌, refl, sym, ◌∙◌, arith, Bool-cases, Option-cases, ◌⊎◌, inl, inr}
use dhcp_server.Base.Outcome.{Outcome, ok, err, panic, stuck}
use dhcp_server.Base.Wire.{Bytes, u16}
use dhcp_server.Net.{bytes_equal, to4, to16}
use dhcp_server.Dns.{
  Query, parse_query, build_response, rr_address, rr_ptr, ptr_fqdn, split_query, split_labels,
}
use dhcp_server.Dns.{
  nibble_val, qtype_a, qtype_aaaa, qtype_any, qtype_ptr, rcode_no_error, rcode_nx_domain,
}

-- `strings.CutSuffix`.
unfoldable pub cut_suffix : (name suffix : Bytes) → Option Bytes
cut_suffix name suffix =
    let n = length name - length suffix in
    if leb (length suffix) (length name) && bytes_equal (drop n name) suffix
    then some (take n name)
    else none

-- ".in-addr.arpa" and ".ip6.arpa".
abbrev pub in_addr_arpa : Bytes
in_addr_arpa = 46 ∷ 105 ∷ 110 ∷ 45 ∷ 97 ∷ 100 ∷ 100 ∷ 114 ∷ 46 ∷ 97 ∷ 114 ∷ 112 ∷ 97 ∷ []

abbrev pub ip6_arpa : Bytes
ip6_arpa = 46 ∷ 105 ∷ 112 ∷ 54 ∷ 46 ∷ 97 ∷ 114 ∷ 112 ∷ 97 ∷ []

-- The loop over the nibbles, whose list starts with the last: each pair is one byte, which goes in
-- front of the bytes that follow it in the address.
unfoldable pub nibble_bytes : List Bytes → Bytes → Option Bytes
nibble_bytes (lo ∷ hi ∷ rest) ip = elim (nibble_val hi) [
  | none ↦ none
  | some h ↦ elim (nibble_val lo) [ none ↦ none | some l ↦ nibble_bytes rest ((h * 16 + l) ∷ ip) ]
]
nibble_bytes _ ip = some ip

-- `ip.To4()` appended to a slice.
unfoldable pub to4_bytes : Bytes → Bytes
to4_bytes ip = elim (to4 ip) [ none ↦ [] | some b ↦ b ]

-- What strconv.Atoi returns: a sign (true for a minus) and a magnitude, or an error.
module _ (atoi : Bytes → Option (Bool × ℕ)) where
  -- One part of an in-addr.arpa name: `err != nil || n < 0 || n > 255` refuses it.
  unfoldable pub decimal_byte : Bytes → Option ℕ
  decimal_byte part = elim (atoi part) [
    | none ↦ none
    | some (negative, n) ↦ if (negative && ltb 0 n) || ltb 255 n then none else some n
  ]

  unfoldable pub decimal_bytes : List Bytes → Bytes → Option Bytes
  decimal_bytes [] ip = some ip
  decimal_bytes (part ∷ parts) ip = elim (decimal_byte part) [
    | none ↦ none
    | some n ↦ decimal_bytes parts (n ∷ ip)
  ]

  unfoldable pub parse_ptr_name : Bytes → Option Bytes
  parse_ptr_name name = elim (cut_suffix name in_addr_arpa) [
    | some host ↦
        if length (split_labels host) == 4 then decimal_bytes (split_labels host) [] else none
    | none ↦ elim (cut_suffix name ip6_arpa) [
      | some host ↦
          if length (split_labels host) == 32 then nibble_bytes (split_labels host) [] else none
      | none ↦ none
    ]
  ]

  module _ (to_lower : Bytes → Bytes)
      (lookup_hostname : Bytes → Bytes → Option (List Bytes × List Bytes))
      (lookup_ptr : Bytes → Bytes × Bytes) (ttl : ℕ) where
    -- An error of the store counts as no addresses.
    unfoldable pub lookup_name : Bytes → List Bytes × List Bytes
    lookup_name name = elim (lookup_hostname (split_query name).0 (split_query name).1) [
      | none ↦ ([], [])
      | some found ↦ found
    ]

    unfoldable pub address_answers : ℕ → List Bytes × List Bytes → List Bytes
    address_answers qtype (v4, v6) =
        (if qtype == qtype_a || qtype == qtype_any
          then map (λ ip. rr_address qtype_a ttl (to4_bytes ip)) v4
          else [])
        ++ (if qtype == qtype_aaaa || qtype == qtype_any
            then map (λ ip. rr_address qtype_aaaa ttl (to16 ip)) v6
            else [])

    unfoldable pub answer_address : Query → List Bytes × ℕ
    answer_address q =
        let found = lookup_name q.name in
        let answers = address_answers q.qtype found in
        if length answers == 0 && length found.0 + length found.1 == 0
        then (answers, rcode_nx_domain)
        else (answers, rcode_no_error)

    unfoldable pub answer_ptr : Query → List Bytes × ℕ
    answer_ptr q = elim (parse_ptr_name q.name) [
      | none ↦ ([], rcode_nx_domain)
      | some ip ↦
          if length (lookup_ptr ip).0 == 0
          then ([], rcode_nx_domain)
          else (rr_ptr ttl (ptr_fqdn (lookup_ptr ip).0 (lookup_ptr ip).1) ∷ [], rcode_no_error)
    ]

    unfoldable pub answer : Query → List Bytes × ℕ
    answer q =
        if q.qtype == qtype_a || (q.qtype == qtype_aaaa || q.qtype == qtype_any)
        then answer_address q
        else if q.qtype == qtype_ptr
        then answer_ptr q
        else ([], rcode_no_error)

    -- A message that parseQuery refuses gets no response.
    unfoldable pub handle_query : Bytes → Option Bytes
    handle_query input = elim (parse_query to_lower input) [
      | ok q ↦ some (build_response q (answer q).0 (answer q).1)
      | _ ↦ none
    ]
