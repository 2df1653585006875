-- ===== src/Base/Upsert.antt =====
-- `INSERT … ON CONFLICT (…) DO UPDATE` on a table as a list of rows: `at` tests for the row that the
-- conflict target names, `rival` for a row that another constraint sets against the new one once it
-- stands there, `twin` for the new row's primary key, and `overwrite` is the update of each row.
use mathlib.Core.Path.{◌≡◌, refl, sym, subst, ap, ◌∙◌}
use mathlib.Core.Bool.{Bool, true, false}
use mathlib.Core.Logic.{◌⊎◌, inl, inr}
use mathlib.Core.Option.{Option, none, some}
use mathlib.Core.List.{List, [], ◌∷◌, ◌++◌, map, Memᴰ}
use mathlib.Core.List.Memᴰ
use dhcp_server.Base.Tests.{if◌then◌else◌, Bool-cases}
use dhcp_server.Base.Rows.{any, find_first, reject, find_first-eq-some, find_first-eq-none, mem-map}
use dhcp_server.Base.Rows.{mem-reject, mem_of_any, any-eq-false, mem_of_mem-map}
use native.Mathlib.Omega.{arith}

module _ {A : Type 0} where
  -- `none` is the violation of a constraint.
  unfoldable pub upsert :
      (at rival twin : A → Bool) → (overwrite : A → A) → A → List A → Option (List A)
  upsert at rival twin overwrite new xs =
      if any rival xs
      then none
      else if any at xs
      then some (map overwrite xs)
      else if any twin xs
      then none
      else some (xs ++ new ∷ [])

  pub upsert-cases :
      (at rival twin : A → Bool) (overwrite : A → A) (new : A) (xs ys : List A)
      → upsert at rival twin overwrite new xs ≡ some ys
      → (any rival xs ≡ false)
        × (((any at xs ≡ true) × (ys ≡ map overwrite xs))
            ⊎ ((any at xs ≡ false) × (any twin xs ≡ false) × (ys ≡ xs ++ new ∷ [])))
  unfolding upsert
  upsert-cases at rival twin overwrite new xs ys h = ground arith

  -- A row that the update leaves alone stays.
  pub upsert-mem :
      (at rival twin : A → Bool) (overwrite : A → A) (new : A) (xs ys : List A) (x : A)
      → upsert at rival twin overwrite new xs ≡ some ys
      → Memᴰ x xs
      → overwrite x ≡ x
      → Memᴰ x ys
  upsert-mem at rival twin overwrite new xs ys x h m e =
      let (_, cases) = upsert-cases at rival twin overwrite new xs ys h in
      elim cases [
        | inl (_, s) ↦
            subst (λ zs. Memᴰ x zs) (sym s)
              (subst (λ z. Memᴰ z (map overwrite xs)) e (mem-map overwrite xs x m))
        | inr (_, _, s) ↦ subst (λ zs. Memᴰ x zs) (sym s) (Memᴰ.append_left (new ∷ []) m)
      ]

  -- The new row, or the one it overwrote, is in the table.
  pub upsert-stored :
      (at rival twin : A → Bool) (overwrite : A → A) (new : A) (xs ys : List A)
      → upsert at rival twin overwrite new xs ≡ some ys
      → Memᴰ new ys ⊎ ((x : A) × Memᴰ x xs × (at x ≡ true) × Memᴰ (overwrite x) ys)
  upsert-stored at rival twin overwrite new xs ys h =
      let (_, cases) = upsert-cases at rival twin overwrite new xs ys h in
      elim cases [
        | inl (here, s) ↦
            let (x, m, t) = mem_of_any at xs here in
            inr (x, m, t, subst (λ zs. Memᴰ (overwrite x) zs) (sym s) (mem-map overwrite xs x m))
        | inr (_, _, s) ↦
            inl (subst (λ zs. Memᴰ new zs) (sym s) (Memᴰ.append_right xs (Memᴰ.head refl)))
      ]

  -- The table `ys` is `xs` with no row at the place, or with one that nothing holds, maybe deleted.
  abbrev pub IsCleared :
      (at : A → Bool) → (held : A → Type 0) → (same : A → A → Bool) → (xs ys : List A) → Type 0
  IsCleared at held same xs ys =
      ((find_first at xs ≡ none) × (ys ≡ xs))
      ⊎ ((x : A) × (find_first at xs ≡ some x) × ¬ held x × ((ys ≡ xs) ⊎ (ys ≡ reject (same x) xs)))

  -- A row that is held is not deleted, when `same` separates the rows.
  pub IsCleared-mem :
      (at : A → Bool) (held : A → Type 0) (same : A → A → Bool) (xs ys : List A) (k : A)
      → ((x y : A) → Memᴰ x xs → Memᴰ y xs → same x y ≡ true → x ≡ y)
      → IsCleared at held same xs ys
      → Memᴰ k xs
      → held k
      → Memᴰ k ys
  IsCleared-mem at held same xs ys k u c m h = elim c [
    | inl (_, e) ↦ subst (λ zs. Memᴰ k zs) (sym e) m
    | inr (x, found, idle, inl e) ↦ subst (λ zs. Memᴰ k zs) (sym e) m
    | inr (x, found, idle, inr e) ↦
        let (mx, _) = find_first-eq-some at xs x found in
        subst (λ zs. Memᴰ k zs) (sym e)
          (mem-reject (same x) xs k m (elim (Bool-cases (same x k)) [
            | inl t ↦ absurd (idle (subst held (sym (u x k mx m t)) h))
            | inr f ↦ f
          ]))
  ]

  -- No row that is held stands at the place, when `at` holds of one row at most.
  pub IsCleared-free :
      (at : A → Bool) (held : A → Type 0) (same : A → A → Bool) (xs ys : List A) (k : A)
      → ((x y : A) → Memᴰ x xs → Memᴰ y xs → at x ≡ true → at y ≡ true → x ≡ y)
      → IsCleared at held same xs ys
      → Memᴰ k xs
      → held k
      → at k ≡ false
  IsCleared-free at held same xs ys k u c m h = elim c [
    | inl (missing, _) ↦ find_first-eq-none at xs k missing m
    | inr (x, found, idle, _) ↦
        let (mx, t) = find_first-eq-some at xs x found in
        elim (Bool-cases (at k)) [
          | inl here ↦ absurd (idle (subst held (u k x m mx here t) h))
          | inr away ↦ away
        ]
  ]

  -- Each row that is held stands in the new table, and none of them is at the place.
  abbrev pub Keeps : (at : A → Bool) → (held : A → Type 0) → (xs ys : List A) → Type 0
  Keeps at held xs ys = (k : A) → Memᴰ k xs → held k → (at k ≡ false) × Memᴰ k ys

  -- An INSERT on a cleared table keeps the rows that are held, when the update changes only the row
  -- at the place.
  pub upsert-Keeps :
      (at rival twin : A → Bool) (overwrite : A → A) (held : A → Type 0) (same : A → A → Bool)
      (new : A) (xs before ys : List A)
      → ((x y : A) → Memᴰ x xs → Memᴰ y xs → same x y ≡ true → x ≡ y)
      → ((x y : A) → Memᴰ x xs → Memᴰ y xs → at x ≡ true → at y ≡ true → x ≡ y)
      → ((x : A) → at x ≡ false → overwrite x ≡ x)
      → IsCleared at held same xs before
      → upsert at rival twin overwrite new before ≡ some ys
      → Keeps at held xs ys
  upsert-Keeps at rival twin overwrite held same new xs before ys us ua away c h k m b =
      let f = IsCleared-free at held same xs before k ua c m b in
      (
        f,
        upsert-mem at rival twin overwrite new before ys k h
            (IsCleared-mem at held same xs before k us c m b) (away k f),
      )

  -- A UNIQUE constraint: rows with the same key are one row.
  abbrev pub Unique : (A → A → Type 0) → List A → Type 0
  Unique same xs = (x y : A) → Memᴰ x xs → Memᴰ y xs → same x y → x ≡ y

  appended-Unique :
      (same : A → A → Type 0) (new : A) (xs : List A)
      → ((x y : A) → same x y → same y x)
      → Unique same xs
      → ((x : A) → Memᴰ x xs → ¬ same x new)
      → Unique same (xs ++ new ∷ [])
  appended-Unique same new xs symmetric u fresh x y mx my s = elim (Memᴰ.append_cases xs mx) [
    | inl x_old ↦ elim (Memᴰ.append_cases xs my) [
      | inl y_old ↦ u x y x_old y_old s
      | inr y_new ↦ absurd (fresh x x_old (subst (same x) (Memᴰ.eq_of_singleton y_new) s))
    ]
    | inr x_new ↦ elim (Memᴰ.append_cases xs my) [
      | inl y_old ↦
          absurd (fresh y y_old (subst (same y) (Memᴰ.eq_of_singleton x_new) (symmetric x y s)))
      | inr y_new ↦ Memᴰ.eq_of_singleton x_new ∙ sym (Memᴰ.eq_of_singleton y_new)
    ]
  ]

  pub mapped-Unique :
      (same : A → A → Type 0) (f : A → A) (xs : List A)
      → ((x y : A) → Memᴰ x xs → Memᴰ y xs → same (f x) (f y) → x ≡ y)
      → Unique same (map f xs)
  mapped-Unique same f xs u x y mx my s =
      let (x0, mx0, ex) = mem_of_mem-map f xs x mx in
      let (y0, my0, ey) = mem_of_mem-map f xs y my in
      ex ∙ (ap f (u x0 y0 mx0 my0 (subst (λ z. same z (f y0)) ex (subst (same x) ey s))) ∙ sym ey)

  -- An INSERT keeps a UNIQUE constraint that the overwritten rows keep among themselves, when a row
  -- with the key of the new one is at its place, its rival or its twin.
  pub upsert-Unique :
      (at rival twin : A → Bool) (overwrite : A → A) (same : A → A → Type 0) (new : A)
      (xs ys : List A)
      → ((x y : A) → same x y → same y x)
      → ((x y : A)
          → Memᴰ x xs
          → Memᴰ y xs
          → rival x ≡ false
          → rival y ≡ false
          → same (overwrite x) (overwrite y)
          → x ≡ y)
      → ((x : A) → same x new → (at x ≡ true) ⊎ ((rival x ≡ true) ⊎ (twin x ≡ true)))
      → Unique same xs
      → upsert at rival twin overwrite new xs ≡ some ys
      → Unique same ys
  upsert-Unique at rival twin overwrite same new xs ys symmetric mapped keyed u h =
      let (calm, cases) = upsert-cases at rival twin overwrite new xs ys h in
      elim cases [
        | inl (_, e) ↦ subst (Unique same) (sym e) (
            mapped-Unique same overwrite xs (λ x y mx my s.
              mapped x y mx my (any-eq-false rival xs x calm mx) (any-eq-false rival xs y calm my)
                s))
        | inr (free, alone, e) ↦ subst (Unique same) (sym e) (
            appended-Unique same new xs symmetric u (λ x m s. elim (keyed x s) [
              | inl t ↦ let f = any-eq-false at xs x free m in cc
              | inr (inl t) ↦ let f = any-eq-false rival xs x calm m in cc
              | inr (inr t) ↦ let f = any-eq-false twin xs x alone m in cc
            ]))
      ]

  -- Each row of the new table is an old one, the new one, or an overwritten one at the place.
  pub upsert-origin :
      (at rival twin : A → Bool) (overwrite : A → A) (new : A) (xs ys : List A) (k : A)
      → ((x : A) → at x ≡ false → overwrite x ≡ x)
      → upsert at rival twin overwrite new xs ≡ some ys
      → Memᴰ k ys
      → Memᴰ k xs ⊎ ((k ≡ new) ⊎ ((x : A) × (at x ≡ true) × (k ≡ overwrite x)))
  upsert-origin at rival twin overwrite new xs ys k away h m =
      let (_, cases) = upsert-cases at rival twin overwrite new xs ys h in
      elim cases [
        | inl (_, e) ↦
            let (x, mx, ex) = mem_of_mem-map overwrite xs k (subst (Memᴰ k) e m) in
            elim (Bool-cases (at x)) [
              | inl t ↦ inr (inr (x, t, ex))
              | inr f ↦ inl (subst (λ z. Memᴰ z xs) (sym (ex ∙ away x f)) mx)
            ]
        | inr (_, _, e) ↦ elim (Memᴰ.append_cases xs (subst (Memᴰ k) e m)) [
          | inl old ↦ inl old
          | inr fresh ↦ inr (inl (Memᴰ.eq_of_singleton fresh))
        ]
      ]
