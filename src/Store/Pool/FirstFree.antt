-- ===== src/Store/Pool/FirstFree.antt =====
-- internal/store/store.go: the search of a pool as both loops mean it, on plain numbers. `used` is
-- the map of used addresses; the first and the last address of the range are left out.
use dhcp_server.Base.{
  ℕ, zero, suc, ◌+◌, ◌<◌, ◌≤◌, ◌≡◌, ◌≢◌, ◌⊎◌, inl, inr, ltb, ltb→le, ◌==◌, Bool, true, false,
}
use dhcp_server.Base.{Bool-cases, ◌||◌, if◌then◌else◌, arith}
use dhcp_server.Base.Outcome.{Outcome, ok, err, stuck, Outcome-cases}
use dhcp_server.Store.Table.{Error, no_available_ip}

unfoldable pub first_free : ℕ → (ℕ → Bool) → (start_ip end_ip ip : ℕ) → Outcome Error ℕ
first_free zero used s e ip = stuck
first_free (suc fuel) used s e ip =
    let rest = first_free fuel used s e (ip + 1) in
    if ltb e ip
    then err no_available_ip
    else if used ip || (ip == s || ip == e)
    then rest
    else ok ip

-- The outcome is the lowest address strictly inside the range that is not used, or an error when
-- each of them is used.
abbrev pub IsFirstFree : (ℕ → Bool) → (start_ip end_ip : ℕ) → Outcome Error ℕ → Type 0
IsFirstFree used s e found =
    ((a : ℕ) × (found ≡ ok a)
      × (s < a)
      × (a < e)
      × (used a ≡ false)
      × ((b : ℕ) → s < b → b < a → used b ≡ true))
    ⊎ ((found ≡ err no_available_ip) × ((b : ℕ) → s < b → b < e → used b ≡ true))

-- What the search returns is free, and every address that it has passed is used.
first_free-ok :
    (fuel : ℕ) (used : ℕ → Bool) (s e ip a b : ℕ)
    → first_free fuel used s e ip ≡ ok a
    → (used a ≡ false)
      × (a ≢ s)
      × (a ≢ e)
      × (a ≤ e)
      × (ip ≤ a)
      × (ip ≤ b → b < a → b ≢ s → b ≢ e → used b ≡ true)
unfolding first_free
first_free-ok zero used s e ip a b h = cc
first_free-ok (suc fuel) used s e ip a b h = elim (Bool-cases (ltb e ip)) [
  | inl past ↦ ground arith
  | inr inside ↦ elim (Bool-cases (used ip || (ip == s || ip == e))) [
    | inl skip ↦ ground (arith, first_free-ok fuel used s e (ip + 1) a b)
    | inr free ↦ ground arith
  ]
]

first_free-err :
    (fuel : ℕ) (used : ℕ → Bool) (s e ip b : ℕ)
    → ip ≤ e + 1
    → e + 2 ≤ ip + fuel
    → ((a : ℕ) × (first_free fuel used s e ip ≡ ok a))
      ⊎ ((first_free fuel used s e ip ≡ err no_available_ip)
          × (ip ≤ b → b ≢ s → b < e → used b ≡ true))
unfolding first_free
first_free-err zero used s e ip b i h = absurd (omega arith)
first_free-err (suc fuel) used s e ip b i h = elim (Bool-cases (ltb e ip)) [
  | inl past ↦ ground arith
  | inr inside ↦ elim (Bool-cases (used ip || (ip == s || ip == e))) [
    | inl skip ↦
        let below : first_free (suc fuel) used s e ip ≡ first_free fuel used s e (ip + 1) =
          ground arith in
        rw below (
          ground (
            arith,
            first_free-err fuel used s e (ip + 1) b (omega (arith, ltb→le e ip inside))
                (omega arith),
          ))
    | inr free ↦ ground arith
  ]
]

-- With fuel for the range, the search ends and finds the lowest free address.
pub first_free-IsFirstFree :
    (fuel : ℕ) (used : ℕ → Bool) (s e : ℕ)
    → s ≤ e
    → e + 2 ≤ s + fuel
    → IsFirstFree used s e (first_free fuel used s e s)
first_free-IsFirstFree fuel used s e order enough =
    elim (Outcome-cases (first_free fuel used s e s)) [
      | inl (a, found) ↦
          let (free, ns, ne, le, ge, _) = first_free-ok fuel used s e s a a found in
          inl (
            a,
            found,
            omega arith,
            omega arith,
            free,
            λ b h k.
                (first_free-ok fuel used s e s a b found).5 (omega arith) k (omega arith)
                  (omega arith),
          )
      | inr failed ↦ inr (
        elim (first_free-err fuel used s e s s (omega arith) enough) [
          | inl (a, found) ↦ absurd (failed a found)
          | inr (e, _) ↦ e
        ],
        λ b h k. elim (first_free-err fuel used s e s b (omega arith) enough) [
          | inl (a, found) ↦ absurd (failed a found)
          | inr (_, all) ↦ all (omega arith) (omega arith) k
        ],
      )
    ]
