-- ===== src/Base/Rows.antt =====
-- Tables as lists of rows: the first row that passes a test, the rows that fail it.
use mathlib.Core.Path.{◌≡◌, refl, sym, ap, subst, ◌∙◌}
use mathlib.Core.Bool.{Bool, true, false, ◌||◌}
use mathlib.Core.Logic.{inl, inr}
use mathlib.Core.Option.{Option, none, some}
use mathlib.Core.List.{List, [], ◌∷◌, map, Memᴰ}
use mathlib.Core.List.Memᴰ.{head, tail}
use dhcp_server.Base.Tests.{if◌then◌else◌, Bool-cases}
use native.Mathlib.Omega.{arith}

module _ {ℓ} {A : Type ℓ} where
  unfoldable pub find_first : (A → Bool) → List A → Option A
  find_first p [] = none
  find_first p (x ∷ xs) = if p x then some x else find_first p xs

  unfoldable pub any : (A → Bool) → List A → Bool
  any p [] = false
  any p (x ∷ xs) = p x || any p xs

  unfoldable pub reject : (A → Bool) → List A → List A
  reject p [] = []
  reject p (x ∷ xs) = if p x then reject p xs else x ∷ reject p xs

  pub find_first-eq-some :
      (p : A → Bool) (xs : List A) (x : A) → find_first p xs ≡ some x → Memᴰ x xs × (p x ≡ true)
  unfolding find_first
  find_first-eq-some p [] x h = cc
  find_first-eq-some p (y ∷ ys) x h = elim (Bool-cases (p y)) [
    | inl e ↦ let same : y ≡ x = ground arith in (head (sym same), cc)
    | inr e ↦ let (m, t) = find_first-eq-some p ys x (ground arith) in (tail m, t)
  ]

  pub find_first-eq-none :
      (p : A → Bool) (xs : List A) (x : A) → find_first p xs ≡ none → Memᴰ x xs → p x ≡ false
  unfolding find_first
  find_first-eq-none p [] x h m = elim m [ ]
  find_first-eq-none p (y ∷ ys) x h (head e) = rw e (ground arith)
  find_first-eq-none p (y ∷ ys) x h (tail m) = ground (arith, find_first-eq-none p ys x)

  pub any-eq-false :
      (p : A → Bool) (xs : List A) (x : A) → any p xs ≡ false → Memᴰ x xs → p x ≡ false
  unfolding any
  any-eq-false p [] x h m = elim m [ ]
  any-eq-false p (y ∷ ys) x h (head e) = rw e (ground arith)
  any-eq-false p (y ∷ ys) x h (tail m) = ground (arith, any-eq-false p ys x)

  pub any_of_mem : (p : A → Bool) (xs : List A) (x : A) → Memᴰ x xs → p x ≡ true → any p xs ≡ true
  unfolding any
  any_of_mem p [] x m h = elim m [ ]
  any_of_mem p (y ∷ ys) x (head e) h = let e' : p y ≡ true = rw (← e) h in ground arith
  any_of_mem p (y ∷ ys) x (tail m) h = rw (any_of_mem p ys x m h) (ground arith)

  pub mem_of_mem-reject : (p : A → Bool) (xs : List A) (x : A) → Memᴰ x (reject p xs) → Memᴰ x xs
  unfolding reject
  mem_of_mem-reject p [] x m = elim m [ ]
  mem_of_mem-reject p (y ∷ ys) x m = elim (Bool-cases (p y)) [
    | inl e ↦ tail (
        mem_of_mem-reject p ys x
          (subst (λ b. Memᴰ x (if b then reject p ys else y ∷ reject p ys)) e m))
    | inr e ↦ elim (subst (λ b. Memᴰ x (if b then reject p ys else y ∷ reject p ys)) e m) [
      | head e' ↦ head e'
      | tail m' ↦ tail (mem_of_mem-reject p ys x m')
    ]
  ]

  pub reject-false : (p : A → Bool) (xs : List A) (x : A) → Memᴰ x (reject p xs) → p x ≡ false
  unfolding reject
  reject-false p [] x m = elim m [ ]
  reject-false p (y ∷ ys) x m = elim (Bool-cases (p y)) [
    | inl e ↦
        reject-false p ys x (subst (λ b. Memᴰ x (if b then reject p ys else y ∷ reject p ys)) e m)
    | inr e ↦ elim (subst (λ b. Memᴰ x (if b then reject p ys else y ∷ reject p ys)) e m) [
      | head e' ↦ ap p e' ∙ e
      | tail m' ↦ reject-false p ys x m'
    ]
  ]

  pub mem-reject :
      (p : A → Bool) (xs : List A) (x : A) → Memᴰ x xs → p x ≡ false → Memᴰ x (reject p xs)
  unfolding reject
  mem-reject p [] x m h = elim m [ ]
  mem-reject p (y ∷ ys) x (head e) h = let e' : p y ≡ false = rw (← e) h in rw e' (head e)
  mem-reject p (y ∷ ys) x (tail m) h = elim (Bool-cases (p y)) [
    | inl e ↦ rw e (mem-reject p ys x m h)
    | inr e ↦ rw e (tail (mem-reject p ys x m h))
  ]

  pub mem_of_mem-map :
      (f : A → A) (xs : List A) (y : A) → Memᴰ y (map f xs) → (x : A) × Memᴰ x xs × (y ≡ f x)
  mem_of_mem-map f [] y m = elim m [ ]
  mem_of_mem-map f (x ∷ xs) y (head e) = (x, head refl, e)
  mem_of_mem-map f (x ∷ xs) y (tail m) = let (z, m', e) = mem_of_mem-map f xs y m in (z, tail m', e)

  pub mem-map : (f : A → A) (xs : List A) (x : A) → Memᴰ x xs → Memᴰ (f x) (map f xs)
  mem-map f [] x m = elim m [ ]
  mem-map f (y ∷ ys) x (head e) = head (ap f e)
  mem-map f (y ∷ ys) x (tail m) = tail (mem-map f ys x m)

  pub mem_of_any :
      (p : A → Bool) (xs : List A) → any p xs ≡ true → (x : A) × Memᴰ x xs × (p x ≡ true)
  unfolding any
  mem_of_any p [] h = cc
  mem_of_any p (y ∷ ys) h = elim (Bool-cases (p y)) [
    | inl e ↦ (y, head refl, e)
    | inr e ↦ let (x, m, t) = mem_of_any p ys (ground arith) in (x, tail m, t)
  ]
