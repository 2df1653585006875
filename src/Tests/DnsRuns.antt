-- ===== src/Tests/DnsRuns.antt =====
-- Runs of the DNS server and witnesses of its theorems, for the name `pc.a`.
use dhcp_server.Base.{ℕ, ◌≡◌, refl, inl, Bool, none, some, Option, List, [], ◌∷◌, ◌++◌, arith}
use dhcp_server.Base.Wire.{Bytes, u16}
use dhcp_server.Dns.{Query, encode_labels, join_labels}
use dhcp_server.Dns.{split_query, cut_dot, rr_address, rr_header}
use dhcp_server.Net.{to4}
use dhcp_server.Dns.Name.{IsLabel}
use dhcp_server.Dns.Handler.{answer, answer_address, lookup_name, address_answers, to4_bytes}
use dhcp_server.Dns.Handler.Answer.{IsAnswered, handle_query-question}

-- The labels `pc` and `a`.
abbrev host : Bytes
host = 112 ∷ 99 ∷ []

abbrev domain : Bytes
domain = 97 ∷ []

host-IsLabel : IsLabel host
host-IsLabel = record { filled = omega arith; fits = omega arith }

domain-IsLabel : IsLabel domain
domain-IsLabel = record { filled = omega arith; fits = omega arith }

-- Text in lower case already.
same : Bytes → Bytes
same name = name

abbrev query : Query
query = record {
  id = 77;
  flags = 256;
  name = same (join_labels (host ∷ domain ∷ []));
  qtype = 1;
  question_bytes = encode_labels (host ∷ domain ∷ []) ++ (u16 1 ++ u16 1);
}

-- A store with one address for each name, and no reverse names.
abbrev one_address : Bytes → Bytes → Option (List Bytes × List Bytes)
one_address name zone = some ((10 ∷ 0 ∷ 0 ∷ 1 ∷ []) ∷ [], [])

abbrev no_name : Bytes → Bytes × Bytes
no_name ip = ([], [])

abbrev no_number : Bytes → Option (Bool × ℕ)
no_number text = none

handle_query-question_example : IsAnswered no_number same one_address no_name 300 (
    0
    ∷ 77
    ∷ 1
    ∷ 0
    ∷ 0
    ∷ 1
    ∷ 0
    ∷ 0
    ∷ 0
    ∷ 0
    ∷ 0
    ∷ 0
    ∷ (encode_labels (host ∷ domain ∷ []) ++ (u16 1 ++ (u16 1 ++ []))))
handle_query-question_example =
    handle_query-question no_number same one_address no_name 300 0 77 1 0 0 0 0 0 0 0
      (host ∷ domain ∷ []) 1 1 [] (host-IsLabel, (domain-IsLabel, tt)) (omega arith) (omega arith)
      (omega arith) (inl refl)

-- The address answer on the wire.
answer-run :
    (answer no_number same one_address no_name 300 query).0
    ≡ (192 ∷ 12 ∷ 0 ∷ 1 ∷ 0 ∷ 1 ∷ 0 ∷ 0 ∷ 1 ∷ 44 ∷ 0 ∷ 4 ∷ 10 ∷ 0 ∷ 0 ∷ 1 ∷ []) ∷ []
unfolding answer answer_address lookup_name split_query cut_dot address_answers rr_address rr_header
    to4_bytes to4 join_labels
answer-run = refl
