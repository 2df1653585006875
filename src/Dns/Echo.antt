-- ===== src/Dns/Echo.antt =====
-- internal/dns/server.go: what parseQuery reads from a query, and from the server's own response.
use dhcp_server.Base.{ℕ, suc, ◌+◌, ◌-◌, ◌/◌, ◌%◌, ◌^◌, ◌≡◌, ◌<◌, refl, ◌∙◌, ltb, ◌==◌}
use dhcp_server.Base.{List, [], ◌∷◌, ◌++◌, append_assoc, length, get_or, false, All, ◌⊎◌}
use dhcp_server.Base.{arith, length-append, take-append, le→ltb, not, ◌&&◌}
use dhcp_server.Base.Outcome.{ok}
use dhcp_server.Base.Wire.{Bytes, byte_at, slice, u16, be16, be16_at, be16-u16}
use dhcp_server.Dns.{
  Query, parse_query, decode_name, encode_labels, join_labels, build_response, response_flags,
  append_all,
}
use dhcp_server.Dns.Name.{IsLabel, decode_name-encode_labels}

get_or-append : (xs ys : Bytes) (i d : ℕ) → get_or (xs ++ ys) (length xs + i) d ≡ get_or ys i d
get_or-append [] ys i d = let e : 0 + i ≡ i = omega arith in rw e refl
get_or-append (x ∷ xs) ys i d =
    let e : suc (length xs) + i ≡ suc (length xs + i) = omega arith in
    rw e (get_or-append xs ys i d)

-- A read behind the front of an append.
byte_at-behind : (xs ys : Bytes) (i k : ℕ) → i ≡ length xs + k → byte_at (xs ++ ys) i ≡ byte_at ys k
byte_at-behind xs ys i k e = rw e (get_or-append xs ys k 0)

class_below : (qclass : ℕ) → (qclass ≡ 1) ⊎ (qclass ≡ 255) → qclass < 2 ^ 16
class_below qclass c = omega arith

class_test :
    (qclass : ℕ)
    → (qclass ≡ 1) ⊎ (qclass ≡ 255)
    → (not (qclass == 1) && not (qclass == 255)) ≡ false
class_test qclass c = ground arith

response_flags-bounded : (flags rcode : ℕ) → rcode < 256 → response_flags flags rcode < 2 ^ 16
unfolding response_flags
response_flags-bounded flags rcode h = omega arith

module _ (to_lower : Bytes → Bytes) where
  -- parseQuery on such a message, with class IN or ANY.
  pub parse_query-message :
      (i1 i2 f1 f2 n1 n2 n3 n4 n5 n6 : ℕ) (ls : List Bytes) (qtype qclass : ℕ) (after : Bytes)
      → All IsLabel ls
      → qtype < 2 ^ 16
      → (qclass ≡ 1) ⊎ (qclass ≡ 255)
      → parse_query to_lower (
          i1
          ∷ i2
          ∷ f1
          ∷ f2
          ∷ 0
          ∷ 1
          ∷ n1
          ∷ n2
          ∷ n3
          ∷ n4
          ∷ n5
          ∷ n6
          ∷ (encode_labels ls ++ (u16 qtype ++ (u16 qclass ++ after))))
        ≡ ok (record {
          id = be16 i1 i2;
          flags = be16 f1 f2;
          name = to_lower (join_labels ls);
          qtype = qtype;
          question_bytes = encode_labels ls ++ (u16 qtype ++ u16 qclass);
        })
  unfolding parse_query
  parse_query-message i1 i2 f1 f2 n1 n2 n3 n4 n5 n6 ls qtype qclass after h t c =
      let header : Bytes = i1 ∷ i2 ∷ f1 ∷ f2 ∷ 0 ∷ 1 ∷ n1 ∷ n2 ∷ n3 ∷ n4 ∷ n5 ∷ n6 ∷ [] in
      let tail = u16 qtype ++ u16 qclass in
      let body = tail ++ after in
      let name = encode_labels ls in
      let front = header ++ name in
      let input = front ++ body in
      let n = length name in
      let long : length input ≡ 12 + (n + (4 + length after)) =
        omega (arith, length-append name body) in
      let decoded : decode_name input 12 ≡ ok (join_labels ls, 12 + n) =
        decode_name-encode_labels ls header body h in
      let short_test : ltb (length input) 12 ≡ false = le→ltb (length input) 12 (omega arith) in
      let end_test : ltb (length input) (12 + n + 4) ≡ false =
        le→ltb (length input) (12 + n + 4) (omega arith) in
      let type_at : be16_at input (12 + n) ≡ qtype =
        rw
          (
            byte_at-behind front body (12 + n) 0 (omega arith),
            byte_at-behind front body (12 + n + 1) 1 (omega arith),
          )
          (be16-u16 qtype t) in
      let class_at : be16_at input (12 + n + 2) ≡ qclass =
        rw
          (
            byte_at-behind front body (12 + n + 2) 2 (omega arith),
            byte_at-behind front body (12 + n + 2 + 1) 3 (omega arith),
          )
          (be16-u16 qclass (class_below qclass c)) in
      let question : slice 12 (12 + n + 4) input ≡ name ++ tail =
        rw (← append_assoc name tail after) (
          take-append (12 + n + 4 - 12) (name ++ tail) after
            (omega (arith, length-append name tail))) in
      rw (short_test, decoded, end_test, class_at, class_test qclass c, type_at, question) refl

  -- The response that buildResponse writes for a parsed query is itself a message with the same
  -- question: parseQuery reads from it the query's identifier, name, type and question bytes, and the
  -- response's flags. The query is one with a well-formed name and class IN or ANY, the identifier has
  -- 16 bits, the response code a byte.
  pub parse_query-build_response :
      (id flags : ℕ) (ls : List Bytes) (qtype qclass : ℕ) (answers : List Bytes) (rcode : ℕ)
      → All IsLabel ls
      → id < 2 ^ 16
      → qtype < 2 ^ 16
      → (qclass ≡ 1) ⊎ (qclass ≡ 255)
      → rcode < 256
      → (q : Query)
      → q ≡ (record {
        id = id;
        flags = flags;
        name = to_lower (join_labels ls);
        qtype = qtype;
        question_bytes = encode_labels ls ++ (u16 qtype ++ u16 qclass);
      })
      → parse_query to_lower (build_response q answers rcode)
        ≡ ok (record q { flags = response_flags q.flags rcode })
  unfolding build_response
  parse_query-build_response id flags ls qtype qclass answers rcode h i t c r q e =
      let f = response_flags flags rcode in
      let parsed =
        parse_query-message (id / 256 % 256) (id % 256) (f / 256 % 256) (f % 256)
          (length answers / 256 % 256) (length answers % 256) 0 0 0 0 ls qtype qclass
          (append_all answers) h t c in
      let same_id = be16-u16 id i in
      let same_flags = be16-u16 f (response_flags-bounded flags rcode r) in
      rw (e, append_assoc (encode_labels ls) (u16 qtype ++ u16 qclass) (append_all answers))
        (parsed ∙ rw (same_id, same_flags) refl)
