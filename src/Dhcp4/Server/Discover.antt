-- ===== src/Dhcp4/Server/Discover.antt =====
-- internal/dhcp/server.go: the buffer of Discovers. A Discover that came by local broadcast waits for
-- a relayed copy; the timer's function can run at any time, also late, so it is an event of its own.
-- A lock makes each operation on the buffer one step. What processDiscover is called with is the
-- output.
pub mod Once
use dhcp_server.Base.{
  ℕ, ◌+◌, ◌≤◌, ◌≡◌, refl, ◌==◌, Bool, true, false, not, if◌then◌else◌, Bool-cases,
}
use dhcp_server.Base.{inl, inr, Option, none, some, List, [], ◌∷◌, ◌++◌, arith}
use dhcp_server.Base.Rows.{find_first, reject}
use dhcp_server.Net.{ip_equal, ipv4_zero}
use dhcp_server.Dhcp4.Packet.{Packet}

-- The map `pending`, from hardware addresses to the Discover that waits.
abbrev pub Pending : Type 0
Pending = List (ℕ × Packet)

unfoldable pub schedule_pending_discover : (mac : ℕ) → Packet → Pending → Pending
schedule_pending_discover mac req pending = (mac, req) ∷ reject (λ e. e.0 == mac) pending

unfoldable pub cancel_pending_discover : (mac : ℕ) → Pending → Pending
cancel_pending_discover mac pending = reject (λ e. e.0 == mac) pending

-- The buffer, and the Discover to process.
unfoldable pub fire_pending_discover : (mac : ℕ) → Pending → Pending × List Packet
fire_pending_discover mac pending = elim (find_first (λ e. e.0 == mac) pending) [
  | none ↦ (pending, [])
  | some e ↦ (reject (λ e. e.0 == mac) pending, e.1 ∷ [])
]

unfoldable pub is_relayed : Packet → Bool
is_relayed req = not (ip_equal req.giaddr ipv4_zero)

unfoldable pub handle_discover :
    (blacklisted : Bool) (mac : ℕ) → Packet → Pending → Pending × List Packet
handle_discover blacklisted mac req pending =
    if blacklisted
    then (pending, [])
    else if is_relayed req
    then (cancel_pending_discover mac pending, req ∷ [])
    else (schedule_pending_discover mac req pending, [])

pub data Event : Type 0 where
  received : (blacklisted : Bool) (mac : ℕ) → Packet → Event
  fired : (mac : ℕ) → Event

unfoldable pub on_event : Event → Pending → Pending × List Packet
on_event (received blacklisted mac req) pending = handle_discover blacklisted mac req pending
on_event (fired mac) pending = fire_pending_discover mac pending

-- The buffer after a sequence of events, and all Discovers that were processed, in their order.
unfoldable pub run : List Event → Pending → Pending × List Packet
run [] pending = (pending, [])
run (e ∷ es) pending =
    let (pending', out) = on_event e pending in
    let (pending'', outs) = run es pending' in (pending'', out ++ outs)

-- How many requests pass a test.
unfoldable pub count : (Packet → Bool) → List Packet → ℕ
count p [] = 0
count p (x ∷ xs) = (if p x then 1 else 0) + count p xs

unfoldable pub count_pending : (Packet → Bool) → Pending → ℕ
count_pending p [] = 0
count_pending p (e ∷ es) = (if p e.1 then 1 else 0) + count_pending p es

unfoldable pub count_received : (Packet → Bool) → List Event → ℕ
count_received p [] = 0
count_received p (received b mac req ∷ es) = (if p req then 1 else 0) + count_received p es
count_received p (fired mac ∷ es) = count_received p es
