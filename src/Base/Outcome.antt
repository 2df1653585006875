-- ===== src/Base/Outcome.antt =====
-- The ways a Go function of the program can end: a result, an error value, a run-time panic, or (of
-- the model alone) a loop that has used up its fuel.
use mathlib.Core.Path.{◌≡◌, refl}
use mathlib.Core.Logic.{◌≢◌, ◌⊎◌, inl, inr}

pub data Outcome (E A : Type 0) : Type 0 where
  ok : A → Outcome E A
  err : E → Outcome E A
  panic : Outcome E A
  stuck : Outcome E A

infixl 5 ◌>>=◌
abbrev pub ◌>>=◌ : {E A B : Type 0} → Outcome E A → (A → Outcome E B) → Outcome E B
ok a >>= f = f a
err e >>= f = err e
panic >>= f = panic
stuck >>= f = stuck

pub bind-eq-ok :
    {E A B : Type 0} (m : Outcome E A) (f : A → Outcome E B) {b : B}
    → (m >>= f) ≡ ok b
    → (a : A) × (m ≡ ok a) × (f a ≡ ok b)
bind-eq-ok (ok a) f h = (a, refl, h)
bind-eq-ok (err e) f h = cc
bind-eq-ok panic f h = cc
bind-eq-ok stuck f h = cc

pub bind-ne-stuck :
    {E A B : Type 0} (m : Outcome E A) (f : A → Outcome E B)
    → m ≢ stuck
    → ((a : A) → m ≡ ok a → f a ≢ stuck)
    → (m >>= f) ≢ stuck
bind-ne-stuck (ok a) f h k = k a refl
bind-ne-stuck (err e) f h k = λ q. cc
bind-ne-stuck panic f h k = λ q. cc
bind-ne-stuck stuck f h k = absurd (h refl)

pub ok_injective : {E A : Type 0} {a b : A} → ◌≡◌ {A = Outcome E A} (ok a) (ok b) → a ≡ b
ok_injective h = cc

pub err-ne-stuck : {E A : Type 0} (e : E) → ◌≢◌ {A = Outcome E A} (err e) stuck
err-ne-stuck e h = cc

pub ok-ne-stuck : {E A : Type 0} (a : A) → ◌≢◌ {A = Outcome E A} (ok a) stuck
ok-ne-stuck a h = cc

pub Outcome-cases : {E A : Type 0} (m : Outcome E A) → ((a : A) × (m ≡ ok a)) ⊎ ((a : A) → m ≢ ok a)
Outcome-cases (ok a) = inl (a, refl)
Outcome-cases (err e) = inr (λ a q. cc)
Outcome-cases panic = inr (λ a q. cc)
Outcome-cases stuck = inr (λ a q. cc)
