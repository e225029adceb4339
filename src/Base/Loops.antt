-- ===== src/Base/Loops.antt =====
-- `while` loops: recursion on a bound for the number of rounds. The rule shows that a loop with a
-- measure below the bound ends by its own test.
use Prim.Native.Nat.{ℕ, zero, suc, ◌<◌}
use mathlib.Core.Path.{◌≡◌}
use mathlib.Core.Bool.{Bool, true, false}
use native.Mathlib.Omega.{arith}

unfoldable pub while {ℓ} : {St : Type ℓ} → ℕ → (St → Bool) → (St → St) → St → St
while zero cond step st = st
while (suc rounds) cond step st = elim (cond st) [
  | false ↦ st
  | true ↦ while rounds cond step (step st)
]

-- What a round does: the invariant is kept and the measure falls.
abbrev Falls {ℓ κ} : {St : Type ℓ} → (St → Type κ) → (St → ℕ) → (St → St) → St → Type κ
Falls inv size step st = inv (step st) × (size (step st) < size st)

pub while_inv {ℓ κ} :
    {St : Type ℓ} (inv : St → Type κ) (size : St → ℕ) (cond : St → Bool) (step : St → St)
    → ((st : St) → inv st → cond st ≡ true → Falls inv size step st)
    → (rounds : ℕ) (st : St) → size st < rounds
    → inv st
    → inv (while rounds cond step st) × (cond (while rounds cond step st) ≡ false)
unfolding while
while_inv inv size cond step round zero st few holds = absurd (omega arith)
while_inv inv size cond step round (suc rounds) st few holds =
    ground (arith, round st holds, while_inv inv size cond step round rounds (step st))
