-- ===== src/Can/Run.antt =====
-- The outcome of code that follows pointers in a loop.
-- `fault` is a read or a write through NULL, `out_of_fuel` a loop that took more rounds than the model
-- gives it, which the theorems exclude.
pub data Run {ℓ} (A : Type ℓ) : Type ℓ where
  done : A → Run A
  fault : Run A
  out_of_fuel : Run A

infixl 5 ◌>>=◌
abbrev pub ◌>>=◌ {ℓ κ} : {A : Type ℓ} {B : Type κ} → Run A → (A → Run B) → Run B
done a >>= f = f a
fault >>= f = fault
out_of_fuel >>= f = out_of_fuel
