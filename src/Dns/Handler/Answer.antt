-- ===== src/Dns/Handler/Answer.antt =====
-- internal/dns/server.go: what handleQuery answers.
use dhcp_server.Base.{
  ℕ, ◌+◌, ◌^◌, ◌≡◌, ◌<◌, refl, ◌⊎◌, inl, inr, Bool, true, false, ◌&&◌, ◌||◌, ◌==◌,
}
use dhcp_server.Base.{
  List, [], ◌∷◌, ◌++◌, All, Option, some, if◌then◌else◌, length, arith, Option-cases, Bool-cases,
}
use dhcp_server.Base.Outcome.{ok}
use dhcp_server.Base.Wire.{Bytes, u16, be16}
use dhcp_server.Dns.{
  Query, parse_query, build_response, encode_labels, join_labels, response_flags, rr_ptr, ptr_fqdn,
}
use dhcp_server.Dns.{qtype_a, qtype_aaaa, qtype_any, qtype_ptr, rcode_no_error, rcode_nx_domain}
use dhcp_server.Dns.Name.{IsLabel}
use dhcp_server.Dns.Echo.{parse_query-message, parse_query-build_response}
use dhcp_server.Dns.Handler.{
  handle_query, answer, answer_address, answer_ptr, parse_ptr_name, lookup_name, address_answers,
}

-- NOERROR, or NXDOMAIN without answers.
unfoldable IsConsistent : List Bytes × ℕ → Type 0
IsConsistent r = (r.1 ≡ rcode_no_error) ⊎ ((r.1 ≡ rcode_nx_domain) × (r.0 ≡ []))

if-cases :
    (P : List Bytes × ℕ → Type 0) (b : Bool) (x y : List Bytes × ℕ)
    → P x
    → P y
    → P (if b then x else y)
if-cases P true x y h k = h
if-cases P false x y h k = k

==-zero : (xs : List Bytes) → (length xs == 0) ≡ true → xs ≡ []
==-zero [] h = refl
==-zero (x ∷ xs) h = ground arith

module _ (atoi : Bytes → Option (Bool × ℕ)) (to_lower : Bytes → Bytes)
    (lookup_hostname : Bytes → Bytes → Option (List Bytes × List Bytes))
    (lookup_ptr : Bytes → Bytes × Bytes) (ttl : ℕ) where
  answer_address-IsConsistent :
      (q : Query) → IsConsistent (answer_address atoi to_lower lookup_hostname lookup_ptr ttl q)
  unfolding answer_address IsConsistent
  answer_address-IsConsistent q =
      let found = lookup_name atoi to_lower lookup_hostname lookup_ptr ttl q.name in
      let answers = address_answers atoi to_lower lookup_hostname lookup_ptr ttl q.qtype found in
      elim (Bool-cases (length answers == 0)) [
        | inl e ↦
            if-cases IsConsistent (length answers == 0 && length found.0 + length found.1 == 0)
              (answers, rcode_nx_domain) (answers, rcode_no_error) (inr (refl, ==-zero answers e))
              (inl refl)
        | inr e ↦ rw e (inl refl)
      ]

  answer_ptr-IsConsistent :
      (q : Query) → IsConsistent (answer_ptr atoi to_lower lookup_hostname lookup_ptr ttl q)
  unfolding answer_ptr IsConsistent
  answer_ptr-IsConsistent q = elim (Option-cases (parse_ptr_name atoi q.name)) [
    | inl e ↦ rw (e, answer_ptr) (inr (refl, refl))
    | inr (ip, e) ↦
        rw (e, answer_ptr)
          (if-cases IsConsistent (length (lookup_ptr ip).0 == 0) ([], rcode_nx_domain)
            (rr_ptr ttl (ptr_fqdn (lookup_ptr ip).0 (lookup_ptr ip).1) ∷ [], rcode_no_error)
            (inr (refl, refl)) (inl refl))
  ]

  answer-IsConsistent :
      (q : Query) → IsConsistent (answer atoi to_lower lookup_hostname lookup_ptr ttl q)
  unfolding answer IsConsistent
  answer-IsConsistent q =
      if-cases IsConsistent (q.qtype == qtype_a || (q.qtype == qtype_aaaa || q.qtype == qtype_any))
        _ _ (answer_address-IsConsistent q)
        (if-cases IsConsistent (q.qtype == qtype_ptr) _ _ (answer_ptr-IsConsistent q) (inl refl))

  answer-rcode_below : (q : Query) → (answer atoi to_lower lookup_hostname lookup_ptr ttl q).1 < 256
  unfolding IsConsistent
  answer-rcode_below q = elim (answer-IsConsistent q) [
    | inl e ↦ omega arith
    | inr (e, _) ↦ omega arith
  ]

  -- The message parses as a query, and the response to it parses as the same query with the flags of
  -- the response; its code is NOERROR, or NXDOMAIN without answers.
  unfoldable pub IsAnswered : Bytes → Type 0
  IsAnswered input =
      (q : Query) × (r : Bytes) × (answers : List Bytes) × (rcode : ℕ) × (parse_query to_lower input
        ≡ ok q)
      × (handle_query atoi to_lower lookup_hostname lookup_ptr ttl input ≡ some r)
      × (parse_query to_lower r ≡ ok (record q { flags = response_flags q.flags rcode }))
      × ((rcode ≡ rcode_no_error) ⊎ ((rcode ≡ rcode_nx_domain) × (answers ≡ [])))
      × (r ≡ build_response q answers rcode)

  -- handleQuery answers every query for one well-formed name (labels of 1 to 63 bytes) in class IN or
  -- ANY, whatever the store holds: parseQuery reads from the response the identifier, the name, the type
  -- and the question bytes of the query, the code is NOERROR or NXDOMAIN, and NXDOMAIN has no answers.
  pub handle_query-question :
      (i1 i2 f1 f2 n1 n2 n3 n4 n5 n6 : ℕ) (ls : List Bytes) (qtype qclass : ℕ) (after : Bytes)
      → All IsLabel ls
      → i1 < 256
      → i2 < 256
      → qtype < 2 ^ 16
      → (qclass ≡ 1) ⊎ (qclass ≡ 255)
      → IsAnswered (
          i1
          ∷ i2
          ∷ f1
          ∷ f2
          ∷ 0
          ∷ 1
          ∷ n1
          ∷ n2
          ∷ n3
          ∷ n4
          ∷ n5
          ∷ n6
          ∷ (encode_labels ls ++ (u16 qtype ++ (u16 qclass ++ after))))
  unfolding handle_query IsConsistent IsAnswered
  handle_query-question i1 i2 f1 f2 n1 n2 n3 n4 n5 n6 ls qtype qclass after h b1 b2 t c =
      let q : Query = record {
        id = be16 i1 i2;
        flags = be16 f1 f2;
        name = to_lower (join_labels ls);
        qtype = qtype;
        question_bytes = encode_labels ls ++ (u16 qtype ++ u16 qclass);
      } in
      let a = answer atoi to_lower lookup_hostname lookup_ptr ttl q in
      let parsed =
        parse_query-message to_lower i1 i2 f1 f2 n1 n2 n3 n4 n5 n6 ls qtype qclass after h t c in
      (
        q,
        build_response q a.0 a.1,
        a.0,
        a.1,
        parsed,
        rw (parsed, handle_query) refl,
        parse_query-build_response to_lower (be16 i1 i2) (be16 f1 f2) ls qtype qclass a.0 a.1 h
            (omega arith) t c (answer-rcode_below q) q refl,
        answer-IsConsistent q,
        refl,
      )
