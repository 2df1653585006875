-- ===== src/Dns/Split.antt =====
-- internal/dns/server.go: encodeName splits a name at its dots, decodeName joins the labels by dots.
use dhcp_server.Base.{◌≡◌, ◌≢◌, refl, ==_false, List, [], ◌∷◌, ◌++◌, All, length, ◌+◌, ◌∙◌}
use dhcp_server.Base.Wire.{Bytes}
use dhcp_server.Base.Outcome.{ok}
use dhcp_server.Dns.{dot, join_labels, split_parts, split_labels, encode_name, decode_name}
use dhcp_server.Dns.Name.{IsLabel, decode_name-encode_labels}

-- A label without a dot.
unfoldable pub IsDotless : Bytes → Type 0
IsDotless l = All (λ c. c ≢ dot) l

split_parts-append :
    (l rest : Bytes)
    → IsDotless l
    → split_parts (l ++ dot ∷ rest) ≡ (l, (split_parts rest).0 ∷ (split_parts rest).1)
unfolding split_parts IsDotless
split_parts-append [] rest h = refl
split_parts-append (c ∷ cs) rest (h, hs) = rw (==_false c dot h, split_parts-append cs rest hs) refl

split_parts-label : (l : Bytes) → IsDotless l → split_parts l ≡ (l, [])
unfolding split_parts IsDotless
split_parts-label [] h = refl
split_parts-label (c ∷ cs) (h, hs) = rw (==_false c dot h, split_parts-label cs hs) refl

-- Splitting undoes joining, for one label or more.
pub split_parts-join_labels :
    (l : Bytes) (ls : List Bytes)
    → All IsDotless (l ∷ ls)
    → split_parts (join_labels (l ∷ ls)) ≡ (l, ls)
unfolding join_labels
split_parts-join_labels l [] (h, _) = split_parts-label l h
split_parts-join_labels l (m ∷ ls) (h, hs) =
    split_parts-append l (join_labels (m ∷ ls)) h ∙ rw (split_parts-join_labels m ls hs) refl

-- decodeName reads back each name that encodeName wrote at its offset, whatever stands before and
-- after: a name of one or more labels, of 1 to 63 bytes each, joined by dots.
pub decode_name-encode_name :
    (l : Bytes) (ls : List Bytes) (before after : Bytes)
    → All IsLabel (l ∷ ls)
    → All IsDotless (l ∷ ls)
    → decode_name (before ++ (encode_name (join_labels (l ∷ ls)) ++ after)) (length before)
      ≡ ok (join_labels (l ∷ ls), length before + length (encode_name (join_labels (l ∷ ls))))
unfolding encode_name split_labels
decode_name-encode_name l ls before after h d =
    rw (split_parts-join_labels l ls d) (decode_name-encode_labels (l ∷ ls) before after h)
