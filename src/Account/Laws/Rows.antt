-- ===== src/Account/Laws/Rows.antt =====
-- On the rows of a table: what a SELECT finds, an INSERT at the end and an UPDATE in place, as the
-- statements of src/sql/mysql.cpp do them.
use uno_server.Common.{
  Bool, true, false, Bool-cases, some, List, [], ◌∷◌, ◌++◌, All, All-map, All-append_one, ◌≡◌, ◌≢◌,
  refl, sym, ◌∙◌, inl, inr, arith,
}
use uno_server.Account.Tables.{find_row, update_rows, is_some}

-- A column without two rows of the same value.
abbrev pub Unique {ℓ} : {A : Type ℓ} {K : Type 0} → (A → K) → List A → Type 0
Unique key [] = Unit {0}
Unique key (x ∷ xs) = All (λ y. key x ≢ key y) xs × Unique key xs

module _ {A K : Type 0} (key : A → K) where
  pub Unique-append_one :
      (xs : List A) (x : A)
      → Unique key xs
      → All (λ y. key y ≢ key x) xs
      → Unique key (xs ++ x ∷ [])
  Unique-append_one [] x u h = (tt, tt)
  Unique-append_one (y ∷ xs) x u h =
      (All-append_one (λ z. key y ≢ key z) xs x u.0 h.0, Unique-append_one xs x u.1 h.1)

module _ {A : Type 0} (p : A → Bool) where
  pub find_row-none : (xs : List A) → is_some (find_row p xs) ≡ false → All (λ y. p y ≡ false) xs
  find_row-none [] h = tt
  find_row-none (x ∷ xs) h = elim (Bool-cases (p x)) [
    | inl e ↦ absurd (ground arith)
    | inr e ↦ (e, find_row-none xs (ground arith))
  ]

  pub find_row-append :
      (xs ys : List A) → is_some (find_row p xs) ≡ true → is_some (find_row p (xs ++ ys)) ≡ true
  find_row-append [] ys h = absurd (ground arith)
  find_row-append (x ∷ xs) ys h = ground (arith, find_row-append xs ys)

  -- Where a row is found, a condition that it fulfils finds one.
  pub find_row-found :
      (q : A → Bool) (xs : List A) (x : A)
      → find_row p xs ≡ some x
      → q x ≡ true
      → is_some (find_row q xs) ≡ true
  find_row-found q [] x h e = absurd (ground arith)
  find_row-found q (y ∷ xs) x h e = ground (arith, find_row-found q xs x)

  module _ (f : A → A) where
    pub All-update_rows :
        (P : A → Type 0) (xs : List A)
        → ((x : A) → P x → P (f x))
        → All P xs
        → All P (update_rows p f xs)
    All-update_rows P [] keep h = tt
    All-update_rows P (x ∷ xs) keep h = elim (Bool-cases (p x)) [
      | inl e ↦ rw e (keep x h.0, All-update_rows P xs keep h.1)
      | inr e ↦ rw e (h.0, All-update_rows P xs keep h.1)
    ]

    -- An UPDATE that leaves what a condition is about alone is not seen by it.
    pub find_row-update_rows :
        (q : A → Bool)
        → ((x : A) → q (f x) ≡ q x)
        → (xs : List A) → is_some (find_row q (update_rows p f xs)) ≡ is_some (find_row q xs)
    find_row-update_rows q same [] = refl
    find_row-update_rows q same (x ∷ xs) = ground (arith, same x, find_row-update_rows q same xs)

    pub Unique-update_rows :
        {K : Type 0} (key : A → K)
        → ((x : A) → key (f x) ≡ key x)
        → (xs : List A) → Unique key xs
        → Unique key (update_rows p f xs)
    Unique-update_rows key same [] u = tt
    Unique-update_rows key same (x ∷ xs) u = elim (Bool-cases (p x)) [
      | inl e ↦ rw e (
        All-update_rows (λ y. key (f x) ≢ key y) xs (λ y n q. n (q ∙ same y))
            (All-map xs (λ y n q. n (sym (same x) ∙ q)) u.0),
        Unique-update_rows key same xs u.1,
      )
      | inr e ↦ rw e (
        All-update_rows (λ y. key x ≢ key y) xs (λ y n q. n (q ∙ same y)) u.0,
        Unique-update_rows key same xs u.1,
      )
    ]
