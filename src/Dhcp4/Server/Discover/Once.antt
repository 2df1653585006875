-- ===== src/Dhcp4/Server/Discover/Once.antt =====
-- internal/dhcp/server.go: how often the buffered Discovers are processed.
use dhcp_server.Base.{ℕ, ◌+◌, ◌≤◌, ◌≡◌, refl, ◌==◌, Bool, true, false, if◌then◌else◌}
use dhcp_server.Base.{Bool-cases, Option-cases, inl, inr, none, some, List, [], ◌∷◌, ◌++◌, arith}
use dhcp_server.Base.Rows.{find_first, reject}
use dhcp_server.Dhcp4.Packet.{Packet}
use dhcp_server.Dhcp4.Server.Discover.{
  Pending, schedule_pending_discover, cancel_pending_discover, fire_pending_discover, is_relayed,
  handle_discover, Event, received, fired, on_event, run, count, count_pending, count_received,
}

count-append :
    (p : Packet → Bool) (xs ys : List Packet) → count p (xs ++ ys) ≡ count p xs + count p ys
unfolding count
count-append p [] ys = omega arith
count-append p (x ∷ xs) ys = omega (arith, count-append p xs ys)

count_pending-reject :
    (p : Packet → Bool) (q : ℕ × Packet → Bool) (es : Pending)
    → count_pending p (reject q es) ≤ count_pending p es
unfolding count_pending reject
count_pending-reject p q [] = omega arith
count_pending-reject p q (e ∷ es) = elim (Bool-cases (q e)) [
  | inl t ↦ rw t (omega (arith, count_pending-reject p q es))
  | inr f ↦ rw f (omega (arith, count_pending-reject p q es))
]

-- The entry that fires leaves the buffer.
count_pending-fired :
    (p : Packet → Bool) (mac : ℕ) (es : Pending) (e : ℕ × Packet)
    → find_first (λ x. x.0 == mac) es ≡ some e
    → (if p e.1 then 1 else 0) + count_pending p (reject (λ x. x.0 == mac) es) ≤ count_pending p es
unfolding count_pending reject find_first
count_pending-fired p mac [] e h = cc
count_pending-fired p mac (x ∷ es) e h = elim (Bool-cases (x.0 == mac)) [
  | inl t ↦
      let same : x ≡ e = ground arith in
      let less = count_pending-reject p (λ x. x.0 == mac) es in rw (t, ← same) (omega arith)
  | inr f ↦ rw f (omega (arith, count_pending-fired p mac es e (ground arith)))
]

fire-bound :
    (p : Packet → Bool) (mac : ℕ) (es : Pending)
    → count p (fire_pending_discover mac es).1 + count_pending p (fire_pending_discover mac es).0
      ≤ count_pending p es
unfolding fire_pending_discover count
fire-bound p mac es = elim (Option-cases (find_first (λ x. x.0 == mac) es)) [
  | inl missing ↦ rw (missing, fire_pending_discover) (omega arith)
  | inr (e, found) ↦
      rw (found, fire_pending_discover) (omega (arith, count_pending-fired p mac es e found))
]

handle-bound :
    (p : Packet → Bool) (b : Bool) (mac : ℕ) (req : Packet) (es : Pending)
    → count p (handle_discover b mac req es).1 + count_pending p (handle_discover b mac req es).0
      ≤ (if p req then 1 else 0) + count_pending p es
unfolding handle_discover schedule_pending_discover cancel_pending_discover count count_pending
handle-bound p true mac req es = omega arith
handle-bound p false mac req es =
    let less = count_pending-reject p (λ x. x.0 == mac) es in
    elim (Bool-cases (is_relayed req)) [
      | inl t ↦ rw (t, handle_discover) (omega arith)
      | inr f ↦ rw (f, handle_discover) (omega arith)
    ]

event-bound :
    (p : Packet → Bool) (e : Event) (es : Pending)
    → count p (on_event e es).1 + count_pending p (on_event e es).0
      ≤ count_received p (e ∷ []) + count_pending p es
unfolding on_event count_received
event-bound p (received b mac req) es = omega (arith, handle-bound p b mac req es)
event-bound p (fired mac) es = omega (arith, fire-bound p mac es)

count_received-cons :
    (p : Packet → Bool) (e : Event) (es : List Event)
    → count_received p (e ∷ es) ≡ count_received p (e ∷ []) + count_received p es
unfolding count_received
count_received-cons p (received b mac req) es = omega arith
count_received-cons p (fired mac) es = omega arith

run-bound :
    (p : Packet → Bool) (es : List Event) (pending : Pending)
    → count p (run es pending).1 + count_pending p (run es pending).0
      ≤ count_received p es + count_pending p pending
unfolding run count count_received
run-bound p [] pending = omega arith
run-bound p (e ∷ es) pending =
    let now = event-bound p e pending in
    let later = run-bound p es (on_event e pending).0 in
    let split = count-append p (on_event e pending).1 (run es (on_event e pending).0).1 in
    let both = count_received-cons p e es in omega (arith, now, later, split, both)

-- From an empty buffer, whatever the events and their order are, no Discover is processed more often
-- than it was received: for each test of Discovers, at most as many that pass it are processed as
-- came in.
pub run-count : (p : Packet → Bool) (es : List Event) → count p (run es []).1 ≤ count_received p es
unfolding count_pending
run-count p es = omega (arith, run-bound p es [])

find_first-reject : (q : ℕ × Packet → Bool) (es : Pending) → find_first q (reject q es) ≡ none
unfolding find_first reject
find_first-reject q [] = refl
find_first-reject q (e ∷ es) = elim (Bool-cases (q e)) [
  | inl t ↦ rw t (find_first-reject q es)
  | inr f ↦ rw (f, f) (find_first-reject q es)
]

fired_scheduled :
    (mac : ℕ) (req : Packet) (es : Pending)
    → (fire_pending_discover mac (schedule_pending_discover mac req es)).1 ≡ req ∷ []
unfolding fire_pending_discover schedule_pending_discover find_first
fired_scheduled mac req es =
    let e : (mac == mac) ≡ true = ground arith in rw (e, fire_pending_discover, find_first) refl

fired_cancelled :
    (mac : ℕ) (es : Pending) → (fire_pending_discover mac (cancel_pending_discover mac es)).1 ≡ []
unfolding fire_pending_discover cancel_pending_discover
fired_cancelled mac es = rw (find_first-reject (λ e. e.0 == mac) es, fire_pending_discover) refl

handled_broadcast :
    (mac : ℕ) (req : Packet) (es : Pending)
    → is_relayed req ≡ false
    → handle_discover false mac req es ≡ (schedule_pending_discover mac req es, [])
unfolding handle_discover
handled_broadcast mac req es f = rw f refl

handled_copy :
    (mac : ℕ) (req : Packet) (es : Pending)
    → is_relayed req ≡ true
    → handle_discover false mac req es ≡ (cancel_pending_discover mac es, req ∷ [])
unfolding handle_discover
handled_copy mac req es t = rw t refl

-- A Discover by local broadcast is processed once when its timer fires, whatever was buffered for the
-- client before; when a relayed copy comes first, the copy is processed and the broadcast never is.
pub relayed_copy-preferred :
    (mac : ℕ) (broadcast copy : Packet) (pending : Pending)
    → is_relayed broadcast ≡ false
    → is_relayed copy ≡ true
    → ((run (received false mac broadcast ∷ fired mac ∷ []) pending).1 ≡ broadcast ∷ [])
      × ((run (received false mac broadcast ∷ received false mac copy ∷ fired mac ∷ []) pending).1
          ≡ copy ∷ [])
unfolding run on_event
relayed_copy-preferred mac broadcast copy pending f t =
    let waiting = schedule_pending_discover mac broadcast pending in
    (
      rw (handled_broadcast mac broadcast pending f, fired_scheduled mac broadcast pending) refl,
      rw
          (
            handled_broadcast mac broadcast pending f,
            handled_copy mac copy waiting t,
            fired_cancelled mac waiting,
          )
          refl,
    )
