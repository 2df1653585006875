-- ===== src/Dhcp6/Packet/Panic.antt =====
-- Option headers whose length field makes `4+length` wrap, in ParsePacket and ParseRelayPacket.
use dhcp_server.Base.{ℕ, zero, suc, ◌+◌, ◌-◌, ◌%◌, ◌^◌, ◌≤◌, ◌<◌, ◌≡◌, ◌≢◌, arith}
use dhcp_server.Base.{[], ◌∷◌, All, length, take, drop}
use dhcp_server.Base.Outcome.{panic}
use dhcp_server.Base.Wire.{Bytes, be16}
use dhcp_server.Dhcp6.Packet.{Options, add}
use dhcp_server.Dhcp6.Packet.{parse_options, parse_all_options, parse_packet}

-- A client message of any type, whose first option header says 65532 bytes or more, ends the
-- handler by a run-time panic.
pub parse_packet_panic :
    (t x y z c1 c2 l1 l2 : ℕ) (rest : Bytes)
    → t ≢ 12
    → t ≢ 13
    → 65532 ≤ be16 l1 l2
    → be16 l1 l2 < 2 ^ 16
    → parse_packet (t ∷ x ∷ y ∷ z ∷ c1 ∷ c2 ∷ l1 ∷ l2 ∷ rest) ≡ panic
unfolding parse_packet parse_options
parse_packet_panic t x y z c1 c2 l1 l2 rest a b h k = ground arith

abbrev IsBelow255 : ℕ → Type 0
IsBelow255 b = b < 255

IsBelow255-drop : (n : ℕ) (xs : Bytes) → All IsBelow255 xs → All IsBelow255 (drop n xs)
IsBelow255-drop zero xs h = h
IsBelow255-drop (suc n) [] h = h
IsBelow255-drop (suc n) (x ∷ xs) h = IsBelow255-drop n xs h.1

parse_options-ne-panic :
    (fuel : ℕ) (opts : Options) (input : Bytes)
    → All IsBelow255 input
    → parse_options fuel opts input ≢ panic
unfolding parse_options
parse_options-ne-panic (suc fuel) opts (c1 ∷ c2 ∷ l1 ∷ l2 ∷ rest) (h1, (h2, (h3, (h4, h)))) =
    let n = (4 + be16 l1 l2) % 2 ^ 16 - 4 in
    ground (
      arith,
      parse_options-ne-panic fuel (add opts (be16 c1 c2) (take n rest)) (drop n rest)
          (IsBelow255-drop n rest h),
    )
parse_options-ne-panic zero opts (c1 ∷ c2 ∷ l1 ∷ l2 ∷ rest) h = λ e. cc
parse_options-ne-panic zero opts [] h = λ e. cc
parse_options-ne-panic zero opts (a ∷ []) h = λ e. cc
parse_options-ne-panic zero opts (a ∷ b ∷ []) h = λ e. cc
parse_options-ne-panic _ opts _ h = λ e. cc

-- A message with no byte 255 is parsed or refused with an error, and never panics.
pub parse_packet-ne-panic : (input : Bytes) → All IsBelow255 input → parse_packet input ≢ panic
unfolding parse_packet parse_all_options
parse_packet-ne-panic (t ∷ x ∷ y ∷ z ∷ options) (_, (_, (_, (_, h)))) =
    ground (arith, parse_options-ne-panic (length options) [] options h)
parse_packet-ne-panic [] h = λ e. cc
parse_packet-ne-panic (a ∷ []) h = λ e. cc
parse_packet-ne-panic (a ∷ b ∷ []) h = λ e. cc
parse_packet-ne-panic (a ∷ b ∷ c ∷ []) h = λ e. cc
