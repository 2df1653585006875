-- ===== src/Dns.antt =====
-- internal/dns/server.go: the names, queries and responses of the DNS server on the wire. A name is
-- the list of its bytes. `strings.ToLower`, which maps invalid UTF-8 to a replacement character, and
-- `strconv.Atoi` are arguments of what uses them.
pub mod Name
pub mod Split
pub mod Echo
pub mod Handler
use dhcp_server.Base.{ℕ, zero, suc, ◌+◌, ◌-◌, ◌*◌, ◌/◌, ◌%◌, ltb, leb, ◌==◌, not, ◌&&◌, ◌||◌}
use dhcp_server.Base.{
  List, [], ◌∷◌, ◌++◌, Option, none, some, if◌then◌else◌, length, Bool, true, false,
}
use dhcp_server.Base.Outcome.{Outcome, ok, err, stuck, ◌>>=◌}
use dhcp_server.Base.Wire.{Bytes, byte_at, slice, be16_at, u16, u32}

abbrev pub qtype_a : ℕ
qtype_a = 1

abbrev pub qtype_ptr : ℕ
qtype_ptr = 12

abbrev pub qtype_aaaa : ℕ
qtype_aaaa = 28

abbrev pub qtype_any : ℕ
qtype_any = 255

abbrev pub rcode_no_error : ℕ
rcode_no_error = 0

abbrev pub rcode_nx_domain : ℕ
rcode_nx_domain = 3

-- The byte `.`.
abbrev pub dot : ℕ
dot = 46

pub data Error : Type 0 where
  short : Error
  unsupported_question_count : Error
  unsupported_qclass : Error
  compressed_name : Error

pub record Query : Type 0 where
  pub id : ℕ
  pub flags : ℕ
  pub name : Bytes
  pub qtype : ℕ
  pub question_bytes : Bytes

-- `strings.Join(labels, ".")`.
unfoldable pub join_labels : List Bytes → Bytes
join_labels [] = []
join_labels (l ∷ []) = l
join_labels (l ∷ ls) = l ++ dot ∷ join_labels ls

-- `strings.Split(name, ".")`: the first part, and the others.
unfoldable pub split_parts : Bytes → Bytes × List Bytes
split_parts [] = ([], [])
split_parts (c ∷ cs) =
    let rest = split_parts cs in if c == dot then ([], rest.0 ∷ rest.1) else (c ∷ rest.0, rest.1)

unfoldable pub split_labels : Bytes → List Bytes
split_labels name = (split_parts name).0 ∷ (split_parts name).1

-- The loop of decodeName; `l&0xC0 != 0` is `64 ≤ l` for a byte.
unfoldable pub decode_loop : ℕ → Bytes → ℕ → List Bytes → Outcome Error (List Bytes × ℕ)
decode_loop zero input offset labels = stuck
decode_loop (suc fuel) input offset labels =
    let l = byte_at input offset in
    let rest =
      decode_loop fuel input (offset + 1 + l)
        (labels ++ slice (offset + 1) (offset + 1 + l) input ∷ []) in
    if leb (length input) offset
    then err short
    else if l == 0
    then ok (labels, offset + 1)
    else if leb 64 l
    then err compressed_name
    else if ltb (length input) (offset + 1 + l)
    then err short
    else rest

-- Each round moves the offset, which stays below the length.
unfoldable pub decode_name : Bytes → ℕ → Outcome Error (Bytes × ℕ)
decode_name input offset = decode_loop (suc (length input)) input offset [] >>= λ (labels, next).
    ok (join_labels labels, next)

-- The loop of encodeName; the length of a label is cut to a byte.
unfoldable pub encode_labels : List Bytes → Bytes
encode_labels [] = 0 ∷ []
encode_labels ([] ∷ ls) = encode_labels ls
encode_labels ((c ∷ cs) ∷ ls) = length (c ∷ cs) % 256 ∷ ((c ∷ cs) ++ encode_labels ls)

unfoldable pub encode_name : Bytes → Bytes
encode_name name = encode_labels (split_labels name)

module _ (to_lower : Bytes → Bytes) where
  unfoldable pub parse_query : Bytes → Outcome Error Query
  parse_query input =
      if ltb (length input) 12
      then err short
      else if not (be16_at input 4 == 1)
      then err unsupported_question_count
      else (decode_name input 12 >>= λ (name, next).
          if ltb (length input) (next + 4)
          then err short
          else if not (be16_at input (next + 2) == 1) && not (be16_at input (next + 2) == 255)
          then err unsupported_qclass
          else ok (record {
            id = be16_at input 0;
            flags = be16_at input 2;
            name = to_lower name;
            qtype = be16_at input next;
            question_bytes = slice 12 (next + 4) input;
          }))

-- `0x8400 | flags & 0x0100 | rcode`, whose bits do not overlap for a byte `rcode`.
unfoldable pub response_flags : (flags rcode : ℕ) → ℕ
response_flags flags rcode = 33792 + flags / 256 % 2 * 256 + rcode

unfoldable pub append_all : List Bytes → Bytes
append_all [] = []
append_all (rr ∷ rrs) = rr ++ append_all rrs

unfoldable pub build_response : Query → List Bytes → ℕ → Bytes
build_response q answers rcode =
    u16 q.id
    ++ (u16 (response_flags q.flags rcode)
        ++ (u16 1
            ++ (u16 (length answers)
                ++ ((0 ∷ 0 ∷ 0 ∷ 0 ∷ []) ++ (q.question_bytes ++ append_all answers)))))

-- The name pointer, type, class, lifetime and data length of an answer.
unfoldable pub rr_header : (typ ttl rdlen : ℕ) → Bytes
rr_header typ ttl rdlen = 192 ∷ 12 ∷ (u16 typ ++ (u16 1 ++ (u32 ttl ++ u16 rdlen)))

unfoldable pub rr_address : (typ ttl : ℕ) → Bytes → Bytes
rr_address typ ttl ip = rr_header typ ttl (if typ == qtype_aaaa then 16 else 4) ++ ip

unfoldable pub rr_ptr : (ttl : ℕ) → Bytes → Bytes
rr_ptr ttl fqdn = let target = encode_name fqdn in rr_header qtype_ptr ttl (length target) ++ target

-- The text before the first dot and the text behind it, if there is a dot.
unfoldable pub cut_dot : Bytes → Option (Bytes × Bytes)
cut_dot [] = none
cut_dot (c ∷ cs) =
    let rest = cut_dot cs in
    if c == dot
    then some ([], cs)
    else elim rest [ none ↦ none | some (host, domain) ↦ some (c ∷ host, domain) ]

-- A dot in front splits nothing.
unfoldable pub split_query : Bytes → Bytes × Bytes
split_query name = elim (cut_dot name) [
  | none ↦ (name, [])
  | some ([], domain) ↦ (name, [])
  | some (c ∷ cs, domain) ↦ (c ∷ cs, domain)
]

unfoldable pub ptr_fqdn : (host domain : Bytes) → Bytes
ptr_fqdn host [] = host ++ dot ∷ []
ptr_fqdn host (c ∷ cs) = host ++ dot ∷ ((c ∷ cs) ++ dot ∷ [])

unfoldable pub nibble_val : Bytes → Option ℕ
nibble_val (c ∷ []) =
    if leb 48 c && leb c 57
    then some (c - 48)
    else if leb 97 c && leb c 102
    then some (c - 97 + 10)
    else if leb 65 c && leb c 70
    then some (c - 65 + 10)
    else none
nibble_val _ = none
