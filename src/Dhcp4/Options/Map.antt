-- ===== src/Dhcp4/Options/Map.antt =====
-- The option map as a map: what Get finds after Set.
use dhcp_server.Base.{ℕ, [], ◌∷◌, Option, none, some, ◌≡◌, ◌≢◌, refl, arith}
use dhcp_server.Base.{◌==◌, if◌then◌else◌}
use dhcp_server.Base.Wire.{Bytes}
use dhcp_server.Dhcp4.Options.{Options, get, put, delete, set}

-- No entry has the code.
abbrev pub Absent : ℕ → Options → Type 0
Absent code [] = Unit
Absent code ((c, v) ∷ os) = (c ≢ code) × Absent code os

-- At most one entry for each code: what a Go map holds.
abbrev pub IsMap : Options → Type 0
IsMap [] = Unit
IsMap ((c, v) ∷ os) = Absent c os × IsMap os

pub get-Absent : (os : Options) (code : ℕ) → Absent code os → get os code ≡ none
unfolding get
get-Absent [] code h = refl
get-Absent ((c, v) ∷ os) code (h, hs) = ground (arith, get-Absent os code hs)

pub get-put :
    (os : Options) (code j : ℕ) (value : Bytes)
    → get (put os code value) j ≡ (if code == j then some value else get os j)
unfolding get put
get-put [] code j value = refl
get-put ((c, v) ∷ os) code j value = ground (arith, get-put os code j value)

get-delete :
    (os : Options) (code j : ℕ)
    → IsMap os
    → get (delete os code) j ≡ (if code == j then none else get os j)
unfolding get delete
get-delete [] code j h = ground arith
get-delete ((c, v) ∷ os) code j (h, hs) = ground (arith, get-delete os code j hs, get-Absent os c h)

-- After Set, Get finds the new value at its code (nothing, where the value was nil) and the old
-- value at every other code.
pub get-set :
    (os : Options) (code j : ℕ) (value : Option Bytes)
    → IsMap os
    → get (set os code value) j ≡ (if code == j then value else get os j)
unfolding set
get-set os code j none h = get-delete os code j h
get-set os code j (some v) h = get-put os code j v

Absent-put :
    (os : Options) (code j : ℕ) (value : Bytes)
    → Absent j os
    → code ≢ j
    → Absent j (put os code value)
unfolding put
Absent-put [] code j value h n = (n, tt)
Absent-put ((c, v) ∷ os) code j value (h, hs) n = ground (arith, Absent-put os code j value hs n)

pub put-IsMap : (os : Options) (code : ℕ) (value : Bytes) → IsMap os → IsMap (put os code value)
unfolding put
put-IsMap [] code value h = (tt, tt)
put-IsMap ((c, v) ∷ os) code value (h, hs) =
    ground (arith, put-IsMap os code value hs, Absent-put os code c value h)
