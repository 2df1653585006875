-- ===== src/Dhcp4/Packet/Layout.antt =====
-- Where the fields of a header stand: each starts where the one before it ends.
use dhcp_server.Base.{ℕ, zero, suc, ◌+◌, ◌≡◌, refl, ◌∙◌, arith, [], ◌∷◌, ◌++◌}
use dhcp_server.Base.{length, take, drop, take-append, drop-append}
use dhcp_server.Base.Wire.{Bytes}

drop-add : (n m : ℕ) (xs : Bytes) → drop (n + m) xs ≡ drop m (drop n xs)
drop-add zero m xs = let e : zero + m ≡ m = omega arith in rw e
drop-add (suc n) m [] = let e : suc n + m ≡ suc (n + m) = omega arith in rw e (drop_nil m)
  where
    drop_nil : (k : ℕ) → [] ≡ drop {A = ℕ} k []
    drop_nil zero = refl
    drop_nil (suc k) = refl
drop-add (suc n) m (x ∷ xs) =
    let e : suc n + m ≡ suc (n + m) = omega arith in rw e (drop-add n m xs)

-- From the start of a field to its end.
pub skip_field :
    (n m k : ℕ) (input field rest : Bytes)
    → drop n input ≡ field ++ rest
    → length field ≡ m
    → n + m ≡ k
    → drop k input ≡ rest
skip_field n m k input field rest h l e =
    rw (← e) (drop-add n m input ∙ rw h (drop-append m field rest l))

pub take_field :
    (n m : ℕ) (input field rest : Bytes)
    → drop n input ≡ field ++ rest
    → length field ≡ m
    → take m (drop n input) ≡ field
take_field n m input field rest h l = rw h (take-append m field rest l)
