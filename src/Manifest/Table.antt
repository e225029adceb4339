-- ===== src/Manifest/Table.antt =====
-- Tables as lists of rows in the order of insertion, and the laws of the statements on them.
use mathlib.Core.Option
use chimera_ape.Base.{
  ◌≡◌, ◌≢◌, refl, Bool, true, not, Option, none, some, List, [], ◌∷◌, ◌++◌, arith, if◌then◌else◌,
  Bytes, bytes_eq, bytes_eq_iff, All, inl, inr, Bool-cases, sym, ◌∙◌,
}

module _ {ℓ} {A : Type ℓ} where
  -- `SELECT … WHERE p`
  abbrev pub select : (A → Bool) → List A → List A
  select p [] = []
  select p (x ∷ xs) = let rest = select p xs in if p x then x ∷ rest else rest

  -- The first row of a `SELECT … WHERE p`.
  abbrev pub first : (A → Bool) → List A → Option A
  first p [] = none
  first p (x ∷ xs) = let rest = first p xs in if p x then some x else rest

  -- `UPDATE … WHERE p`
  abbrev pub update : (A → Bool) → (A → A) → List A → List A
  update p f [] = []
  update p f (x ∷ xs) = (if p x then f x else x) ∷ update p f xs

  -- `DELETE … WHERE p`
  abbrev pub delete : (A → Bool) → List A → List A
  delete p = select (λ x. not (p x))

  pub All-select {κ} :
      (P : A → Type κ) (p : A → Bool) (xs : List A) → All P xs → All P (select p xs)
  All-select P p [] h = h
  All-select P p (x ∷ xs) h = elim (Bool-cases (p x)) [
    | inl e ↦ rw e (h.0, All-select P p xs h.1)
    | inr e ↦ rw e (All-select P p xs h.1)
  ]

  -- The rows that are left meet the condition.
  pub All-select-true : (p : A → Bool) (xs : List A) → All (λ x. p x ≡ true) (select p xs)
  All-select-true p [] = tt
  All-select-true p (x ∷ xs) = elim (Bool-cases (p x)) [
    | inl e ↦ rw e (e, All-select-true p xs)
    | inr e ↦ rw e (All-select-true p xs)
  ]

-- Keys that are pairwise different: PRIMARY KEY, UNIQUE.
module _ {ℓ κ} {A : Type ℓ} {K : Type κ} (key : A → K) where
  abbrev pub Fresh : K → List A → Type κ
  Fresh k xs = All (λ x. key x ≢ k) xs

  abbrev pub Unique : List A → Type κ
  Unique [] = Unit
  Unique (x ∷ xs) = Fresh (key x) xs × Unique xs

  pub Fresh-snoc : (k : K) (xs : List A) (y : A) → Fresh k xs → key y ≢ k → Fresh k (xs ++ y ∷ [])
  Fresh-snoc k [] y h n = (n, tt)
  Fresh-snoc k (x ∷ xs) y h n = (h.0, Fresh-snoc k xs y h.1 n)

  pub Unique-snoc : (xs : List A) (y : A) → Unique xs → Fresh (key y) xs → Unique (xs ++ y ∷ [])
  Unique-snoc [] y u f = (tt, tt)
  Unique-snoc (x ∷ xs) y u f =
      (Fresh-snoc (key x) xs y u.0 (λ e. f.0 (sym e)), Unique-snoc xs y u.1 f.1)

  pub Unique-select : (p : A → Bool) (xs : List A) → Unique xs → Unique (select p xs)
  Unique-select p [] u = u
  Unique-select p (x ∷ xs) u = elim (Bool-cases (p x)) [
    | inl e ↦ rw e (All-select (λ y. key y ≢ key x) p xs u.0, Unique-select p xs u.1)
    | inr e ↦ rw e (Unique-select p xs u.1)
  ]

  -- An update that leaves the keys alone.
  key-update :
      (p : A → Bool) (f : A → A) (x : A)
      → ((y : A) → key (f y) ≡ key y)
      → key (if p x then f x else x) ≡ key x
  key-update p f x keep = elim (Bool-cases (p x)) [ inl e ↦ rw e (keep x) | inr e ↦ rw e ]

  Fresh-update :
      (k : K) (p : A → Bool) (f : A → A) (xs : List A)
      → ((y : A) → key (f y) ≡ key y)
      → Fresh k xs
      → Fresh k (update p f xs)
  Fresh-update k p f [] keep h = h
  Fresh-update k p f (x ∷ xs) keep h =
      (λ e. h.0 (sym (key-update p f x keep) ∙ e), Fresh-update k p f xs keep h.1)

  pub Unique-update :
      (p : A → Bool) (f : A → A) (xs : List A)
      → ((y : A) → key (f y) ≡ key y)
      → Unique xs
      → Unique (update p f xs)
  Unique-update p f [] keep u = u
  Unique-update p f (x ∷ xs) keep u = (
    rw (key-update p f x keep) (Fresh-update (key x) p f xs keep u.0),
    Unique-update p f xs keep u.1,
  )

-- A row whose key is `k`, for keys that are texts.
module _ {ℓ} {A : Type ℓ} (key : A → Bytes) where
  abbrev pub has_key : Bytes → A → Bool
  has_key k x = bytes_eq (key x) k

  pub Fresh-of_first : (k : Bytes) (xs : List A) → first (has_key k) xs ≡ none → Fresh key k xs
  Fresh-of_first k [] h = tt
  Fresh-of_first k (x ∷ xs) h = elim (Bool-cases (has_key k x)) [
    | inl e ↦ absurd (cc (rw e at h))
    | inr e ↦ (λ same. cc (e, (bytes_eq_iff (key x) k).1 same), Fresh-of_first k xs (rw e at h))
  ]

  pub first_of_Fresh : (k : Bytes) (xs : List A) → Fresh key k xs → first (has_key k) xs ≡ none
  first_of_Fresh k [] h = refl
  first_of_Fresh k (x ∷ xs) h = ground (arith, bytes_eq_iff (key x) k, first_of_Fresh k xs h.1)

  -- A row is found where it has been appended, or where it was.
  pub first-snoc :
      (xs : List A) (y : A)
      → first (has_key (key y)) xs ≡ none
      → (j : Bytes)
      → first (has_key j) (xs ++ y ∷ []) ≡ (if has_key j y then some y else first (has_key j) xs)
  first-snoc [] y h j = refl
  first-snoc (x ∷ xs) y h j = ground (
    arith,
    bytes_eq_iff (key x) (key y),
    bytes_eq_iff (key x) j,
    bytes_eq_iff (key y) j,
    λ (h' : first (has_key (key y)) xs ≡ none). first-snoc xs y h' j,
  )

  pub first-update :
      (k : Bytes) (f : A → A) (xs : List A) (j : Bytes)
      → ((y : A) → key (f y) ≡ key y)
      → first (has_key j) (update (has_key k) f xs)
        ≡ (if bytes_eq k j then Option.map f (first (has_key j) xs) else first (has_key j) xs)
  first-update k f [] j keep = ground arith
  first-update k f (x ∷ xs) j keep = ground (
    arith,
    keep x,
    bytes_eq_iff (key x) k,
    bytes_eq_iff (key x) j,
    bytes_eq_iff (key (f x)) j,
    bytes_eq_iff k j,
    first-update k f xs j keep,
  )

  -- Deleting the rows with key `k` leaves the others.
  pub first-delete :
      (k : Bytes) (xs : List A) (j : Bytes)
      → first (has_key j) (delete (has_key k) xs)
        ≡ (if bytes_eq k j then none else first (has_key j) xs)
  first-delete k [] j = ground arith
  first-delete k (x ∷ xs) j =
      ground (
        arith,
        bytes_eq_iff (key x) k,
        bytes_eq_iff (key x) j,
        bytes_eq_iff k j,
        first-delete k xs j,
      )

  -- What a selection by key sees of a deletion by key.
  pub select-delete :
      (k : Bytes) (xs : List A) (j : Bytes)
      → select (has_key j) (delete (has_key k) xs)
        ≡ (if bytes_eq k j then [] else select (has_key j) xs)
  select-delete k [] j = ground arith
  select-delete k (x ∷ xs) j = ground (
    arith,
    bytes_eq_iff (key x) k,
    bytes_eq_iff (key x) j,
    bytes_eq_iff k j,
    select-delete k xs j,
  )
