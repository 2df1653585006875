-- ===== src/Dhcp4/Server/Match.antt =====
-- internal/dhcp/server.go: matchScope chooses the most specific candidate.
use dhcp_server.Base.{
  ℕ, ◌≡◌, ◌≤◌, ◌<◌, refl, ltb, ◌&&◌, not, Bool, true, false, Bool-cases, if◌then◌else◌, lt→ltb,
  ltb→lt, ltb→le,
}
use dhcp_server.Base.{List, [], ◌∷◌, Option, none, some, arith, inl, inr}
use dhcp_server.Base.Rows.{reject, mem_of_mem-reject, mem-reject, reject-false}
use dhcp_server.Dhcp4.Server.{ServerScope, is_candidate, mask_size, most_specific, match_scope}
use mathlib.Core.List.{Memᴰ}

-- The chosen scope is one of the candidates.
most_specific-mem :
    (best : ServerScope) (scs : List ServerScope) → Memᴰ (most_specific best scs) (best ∷ scs)
unfolding most_specific
most_specific-mem best [] = Memᴰ.head refl
most_specific-mem best (sc ∷ scs) =
    elim (Bool-cases (ltb 0 (mask_size best) && ltb (mask_size best) (mask_size sc))) [
      | inl e ↦ rw e (Memᴰ.tail (most_specific-mem sc scs))
      | inr e ↦ rw e (skip (most_specific-mem best scs))
    ]
  where
    skip : {x : ServerScope} → Memᴰ x (best ∷ scs) → Memᴰ x (best ∷ sc ∷ scs)
    skip (Memᴰ.head h) = Memᴰ.head h
    skip (Memᴰ.tail m) = Memᴰ.tail (Memᴰ.tail m)

-- The better of two scopes.
better : ServerScope → ServerScope → ServerScope
better best sc = if ltb 0 (mask_size best) && ltb (mask_size best) (mask_size sc) then sc else best

better-le :
    (best sc : ServerScope)
    → 0 < mask_size best
    → (mask_size best ≤ mask_size (better best sc)) × (mask_size sc ≤ mask_size (better best sc))
unfolding better
better-le best sc p = elim (Bool-cases (ltb (mask_size best) (mask_size sc))) [
  | inl e ↦
      rw (lt→ltb 0 (mask_size best) p, e)
        (let l = ltb→lt (mask_size best) (mask_size sc) e in (omega arith, omega arith))
  | inr e ↦
      rw (lt→ltb 0 (mask_size best) p, e)
        (let l = ltb→le (mask_size best) (mask_size sc) e in (omega arith, omega arith))
]

most_specific-le :
    (best : ServerScope) (scs : List ServerScope) (sc : ServerScope)
    → 0 < mask_size best
    → Memᴰ sc (best ∷ scs)
    → mask_size sc ≤ mask_size (most_specific best scs)
unfolding most_specific better
most_specific-le best [] sc p (Memᴰ.head e) = rw e (omega arith)
most_specific-le best [] sc p (Memᴰ.tail m) = elim m [ ]
most_specific-le best (s ∷ scs) sc p m =
    let (le1, le2) = better-le best s p in
    let next = better best s in
    let top : mask_size next ≤ mask_size (most_specific next scs) =
      most_specific-le next scs next (omega arith) (Memᴰ.head refl) in
    elim m [
      | Memᴰ.head e ↦ rw e (omega arith)
      | Memᴰ.tail (Memᴰ.head e) ↦ rw e (omega arith)
      | Memᴰ.tail (Memᴰ.tail k) ↦ most_specific-le next scs sc (omega arith) (Memᴰ.tail k)
    ]

is_candidate-enabled :
    (giaddr ciaddr local : ℕ) (s : ServerScope)
    → not (is_candidate giaddr ciaddr local s) ≡ false
    → s.enabled ≡ true
unfolding is_candidate
is_candidate-enabled giaddr ciaddr local s h = ground arith

-- When every enabled scope has a mask of at least one bit, the scope that matchScope returns is one
-- of the server's, is a candidate for the request's addresses, and no candidate has a longer mask.
pub match_scope-most_specific :
    (giaddr ciaddr local : ℕ) (scopes : List ServerScope) (sc other : ServerScope)
    → ((s : ServerScope) → Memᴰ s scopes → s.enabled ≡ true → 0 < mask_size s)
    → match_scope giaddr ciaddr local scopes ≡ some sc
    → Memᴰ other scopes
    → is_candidate giaddr ciaddr local other ≡ true
    → Memᴰ sc scopes
      × (is_candidate giaddr ciaddr local sc ≡ true)
      × (mask_size other ≤ mask_size sc)
unfolding match_scope
match_scope-most_specific giaddr ciaddr local scopes sc other p h m c =
    let test : ServerScope → Bool = λ s. not (is_candidate giaddr ciaddr local s) in
    let other_in : Memᴰ other (reject test scopes) = mem-reject test scopes other m (rw c refl) in
    go (reject test scopes)
      (λ s k. (mem_of_mem-reject test scopes s k, reject-false test scopes s k)) other_in h
  where
    go :
        (cs : List ServerScope)
        → ((s : ServerScope)
            → Memᴰ s cs
            → Memᴰ s scopes × (not (is_candidate giaddr ciaddr local s) ≡ false))
        → Memᴰ other cs
        → ◌≡◌ {A = Option ServerScope}
            (elim cs [ [] ↦ none | s ∷ ss ↦ some (most_specific s ss) ])
            (some sc)
        → Memᴰ sc scopes
          × (is_candidate giaddr ciaddr local sc ≡ true)
          × (mask_size other ≤ mask_size sc)
    go [] all k e = elim k [ ]
    go (s ∷ ss) all k e =
        let same : most_specific s ss ≡ sc = cc in
        let (inside, test) = all (most_specific s ss) (most_specific-mem s ss) in
        let (first, shown) = all s (Memᴰ.head refl) in
        let le =
          most_specific-le s ss other (p s first (is_candidate-enabled giaddr ciaddr local s shown))
            k in
        rw (← same) (inside, ground arith, le)
