-- ===== src/Dhcp4/Server/Reply/Filter.antt =====
-- internal/dhcp/server.go: which options a reply has after applyOptions.
use dhcp_server.Base.{ℕ, ◌≡◌, refl, sym, ap, ◌∙◌, ◌==◌, Bool, ◌||◌, Bool-cases, inl, inr}
use dhcp_server.Base.{if◌then◌else◌, none, some, Option-cases, List, [], ◌∷◌, arith}
use dhcp_server.Base.Outcome.{ok, bind-eq-ok}
use dhcp_server.Base.Rows.{any}
use dhcp_server.Base.Wire.{Bytes}
use dhcp_server.Dhcp4.Options.{Options, get, set, delete, opt_dhcp_message_type}
use dhcp_server.Dhcp4.Options.Map.{get-put}
use dhcp_server.Dhcp4.Values.{Library}
use dhcp_server.Dhcp4.Server.Reply.{
  OptionSource, apply_entries, set_lease_times, set_scope_options, keep_codes, mandatory_codes,
  filter_options, apply_options,
}

-- The options `kept` are those of `os` whose codes pass the test.
abbrev IsSelection : (test : ℕ → Bool) → (os kept : Options) → Type 0
IsSelection test os kept = (j : ℕ) → get kept j ≡ (if test j then get os j else none)

keep-one :
    (test : ℕ → Bool) (os kept : Options) (c j : ℕ)
    → IsSelection test os kept
    → get (elim (get os c) [ none ↦ kept | some v ↦ set kept c (some v) ]) j
      ≡ (if test j || c == j then get os j else none)
unfolding set
keep-one test os kept c j h =
    let before = h j in
    elim (Option-cases (get os c)) [
      | inl missing ↦ rw missing (elim (Bool-cases (c == j)) [
        | inl e ↦
            let same : c ≡ j = ground arith in
            let gone : get os j ≡ none = rw (← same) missing in ground arith
        | inr n ↦ ground arith
      ])
      | inr (v, found) ↦
          let after = get-put kept c j v in
          rw found (elim (Bool-cases (c == j)) [
            | inl e ↦
                let same : c ≡ j = ground arith in
                let there : get os j ≡ some v = rw (← same) found in ground arith
            | inr n ↦ ground arith
          ])
    ]

keep_codes-IsSelection :
    (codes : List ℕ) (test : ℕ → Bool) (os kept : Options)
    → IsSelection test os kept
    → IsSelection (λ j. test j || any (λ c. c == j) codes) os (keep_codes codes os kept)
unfolding keep_codes any
keep_codes-IsSelection [] test os kept h j = let before = h j in ground arith
keep_codes-IsSelection (c ∷ cs) test os kept h j =
    let more =
      keep_codes-IsSelection cs (λ i. test i || c == i) os
        (elim (get os c) [ none ↦ kept | some v ↦ set kept c (some v) ])
        (λ i. keep-one test os kept c i h) j in
    ground arith

get-nil : (j : ℕ) → get [] j ≡ none
unfolding get
get-nil j = refl

only_message_type :
    (os : Options) (j : ℕ)
    → get (set [] opt_dhcp_message_type (get os opt_dhcp_message_type)) j
      ≡ (if opt_dhcp_message_type == j then get os j else none)
unfolding set delete
only_message_type os j =
    let t = opt_dhcp_message_type in
    let nil = get-nil j in
    elim (Option-cases (get os t)) [
      | inl missing ↦ rw missing (elim (Bool-cases (t == j)) [
        | inl e ↦
            let same : t ≡ j = ground arith in
            let gone : get os j ≡ none = rw (← same) missing in ground arith
        | inr n ↦ ground arith
      ])
      | inr (v, found) ↦
          let after = get-put [] t j v in
          rw found (elim (Bool-cases (t == j)) [
            | inl e ↦
                let same : t ≡ j = ground arith in
                let there : get os j ≡ some v = rw (← same) found in ground arith
            | inr n ↦ ground arith
          ])
    ]

-- A filter by a list that is not empty selects the listed codes, the message type and the codes that
-- every client needs.
pub filter_options-get :
    (c : ℕ) (cs : Bytes) (os : Options) (j : ℕ)
    → get (filter_options (c ∷ cs) os) j ≡ (
        if (opt_dhcp_message_type == j || any (λ x. x == j) (c ∷ cs))
          || any (λ x. x == j) mandatory_codes
        then get os j
        else none)
unfolding filter_options
filter_options-get c cs os j =
    keep_codes-IsSelection mandatory_codes
      (λ i. opt_dhcp_message_type == i || any (λ x. x == i) (c ∷ cs)) os _
      (keep_codes-IsSelection (c ∷ cs) (λ i. opt_dhcp_message_type == i) os _
        (λ i. only_message_type os i))
      j

filter_options-nil : (os : Options) → filter_options [] os ≡ os
unfolding filter_options
filter_options-nil os = refl

-- When a request lists the options that it wants, the reply has from the options of the reply to a
-- request without a list exactly those that are listed, the message type, the server identifier and
-- the three lease times, with the same values.
pub apply_options-filtered :
    (lib : Library) (c : ℕ) (cs : Bytes) (src : OptionSource) (t : ℕ) (os out : Options) (j : ℕ)
    → apply_options lib (c ∷ cs) src t os ≡ ok out
    → (full : Options) × (apply_options lib [] src t os ≡ ok full)
      × (get out j ≡ (
          if (opt_dhcp_message_type == j || any (λ x. x == j) (c ∷ cs))
            || any (λ x. x == j) mandatory_codes
          then get full j
          else none))
unfolding apply_options
apply_options-filtered lib c cs src t os out j h =
    let start = set_scope_options src (set_lease_times t os) in
    let (os1, e1, h1) = bind-eq-ok (apply_entries lib src.group_options start) _ h in
    let (os2, e2, h2) = bind-eq-ok (apply_entries lib src.scope_options os1) _ h1 in
    let (os3, e3, h3) = bind-eq-ok (apply_entries lib src.reservation_options os2) _ h2 in
    let same : filter_options (c ∷ cs) os3 ≡ out = cc in
    (
      filter_options [] os3,
      rw (e1, e2, e3) refl,
      ap (λ x. get x j) (sym same)
          ∙ (filter_options-get c cs os3 j ∙ rw (filter_options-nil os3) refl),
    )
