-- ===== src/Base/Throws.antt =====
-- A call that may throw: its value, or the text of the exception.
use mathlib.Core.List.{List}
use mathlib.Core.Path.{◌≡◌, refl}
use mathlib.Core.Logic.{◌⊎◌, inl, inr}
use Prim.Native.Nat.{ℕ}

pub data Result {ℓ} (A : Type ℓ) : Type ℓ where
  ok : A → Result A
  err : List ℕ → Result A

infixl 5 ◌>>=◌
unfoldable pub ◌>>=◌ {ℓ κ} : {A : Type ℓ} {B : Type κ} → Result A → (A → Result B) → Result B
ok a >>= f = f a
err e >>= f = err e

pub Result-cases {ℓ} :
    {A : Type ℓ} (r : Result A) → ((a : A) × (r ≡ ok a)) ⊎ ((e : List ℕ) × (r ≡ err e))
Result-cases (ok a) = inl (a, refl)
Result-cases (err e) = inr (e, refl)

-- The value, if there is one, satisfies `P`.
abbrev pub AllOk : {A : Type 0} → (A → Type 0) → Result A → Type 0
AllOk P (ok a) = P a
AllOk P (err e) = Unit

pub bind-AllOk :
    {A B : Type 0} (P : A → Type 0) (Q : B → Type 0) (r : Result A) (f : A → Result B)
    → AllOk P r
    → ((a : A) → P a → AllOk Q (f a))
    → AllOk Q (r >>= f)
unfolding ◌>>=◌
bind-AllOk P Q (ok a) f h k = k a h
bind-AllOk P Q (err e) f h k = tt

-- Where nothing is asked of the first value.
pub then-AllOk :
    {A B : Type 0} (Q : B → Type 0) (r : Result A) (f : A → Result B)
    → ((a : A) → AllOk Q (f a))
    → AllOk Q (r >>= f)
unfolding ◌>>=◌
then-AllOk Q (ok a) f k = k a
then-AllOk Q (err e) f k = tt

pub AllOk-map :
    {A : Type 0} (P Q : A → Type 0) (r : Result A) → AllOk P r → ((a : A) → P a → Q a) → AllOk Q r
AllOk-map P Q (ok a) h k = k a h
AllOk-map P Q (err e) h k = tt

-- There is a value, or `E`.
abbrev pub ErrOnly : {A : Type 0} → Type 0 → Result A → Type 0
ErrOnly E (ok a) = Unit
ErrOnly E (err e) = E

pub bind-ErrOnly :
    {A B : Type 0} (E : Type 0) (r : Result A) (f : A → Result B)
    → ErrOnly E r
    → ((a : A) → ErrOnly E (f a))
    → ErrOnly E (r >>= f)
unfolding ◌>>=◌
bind-ErrOnly E (ok a) f h k = k a
bind-ErrOnly E (err e) f h k = h

pub ErrOnly-map :
    {A : Type 0} (E E' : Type 0) (r : Result A) → ErrOnly E r → (E → E') → ErrOnly E' r
ErrOnly-map E E' (ok a) h k = tt
ErrOnly-map E E' (err e) h k = k h
