-- ===== src/Common/Digits.antt =====
-- The value of a list of digits in a base, the most significant digit first, and its bounds.
use Prim.Native.Nat.{ℕ, zero, suc, ◌+◌, ◌*◌, ◌^◌, ◌<◌}
use Prim.Native.Nat.add
use mathlib.Core.Path.{◌≡◌, refl, ap}
use mathlib.Core.Logic.{◌⊎◌, inl, inr}
use mathlib.Core.List.{List, [], ◌∷◌, ◌++◌}
use native.Mathlib.Omega.{arith}
use native.Mathlib.Nat.{pow-zero, pow-suc}
use jack_service.Common.Lists.{length, All, length-append}

abbrev pub digits_value : ℕ → List ℕ → ℕ
digits_value base [] = 0
digits_value base (d ∷ ds) = d * base ^ length ds + digits_value base ds

pub digits_value-lt :
    (base : ℕ) (ds : List ℕ) → All (λ d. d < base) ds → digits_value base ds < base ^ length ds
digits_value-lt base [] h = rw pow-zero (omega arith)
digits_value-lt base (d ∷ ds) (p, h) = rw pow-suc (grind (arith, digits_value-lt base ds h))

pub pow-add : (base m n : ℕ) → base ^ (m + n) ≡ base ^ m * base ^ n
pow-add base zero n = rw (add.zero, pow-zero) (omega arith)
pow-add base (suc m) n =
    rw (add.suc, pow-suc base (m + n), pow-suc base m) (grind (arith, pow-add base m n))

-- `B` stands for `base ^ length xs` and `C` for `base ^ length ys`.
regroup : (d B C v w : ℕ) → d * (B * C) + (v * C + w) ≡ (d * B + v) * C + w
regroup d B C v w = grind arith

pub digits_value-append :
    (base : ℕ) (xs ys : List ℕ)
    → digits_value base (xs ++ ys) ≡ digits_value base xs * base ^ length ys + digits_value base ys
digits_value-append base [] ys = omega arith
digits_value-append base (d ∷ xs) ys =
    rw (length-append, pow-add, digits_value-append base xs ys) (regroup d _ _ _ _)

lt-mul-lt : (x y P v w : ℕ) → x < y → v < P → x * P + v < y * P + w
lt-mul-lt x y P v w h hv = grind arith

order_cases : (x y : ℕ) → (x < y) ⊎ ((x ≡ y) ⊎ (y < x))
order_cases x y = omega arith

leading_digit : (x y P v w : ℕ) → v < P → w < P → x * P + v ≡ y * P + w → (x ≡ y) × (v ≡ w)
leading_digit x y P v w hv hw e = elim (order_cases x y) [
  | inl h ↦ absurd (omega (arith, lt-mul-lt x y P v w h hv))
  | inr (inl h) ↦ (h, omega (arith, ap (λ (t : ℕ). t * P) h))
  | inr (inr h) ↦ absurd (omega (arith, lt-mul-lt y x P w v h hw))
]

-- Two lists of as many digits with one value are equal.
pub digits_value-injective :
    (base : ℕ) (xs ys : List ℕ)
    → length xs ≡ length ys
    → All (λ d. d < base) xs
    → All (λ d. d < base) ys
    → digits_value base xs ≡ digits_value base ys
    → xs ≡ ys
digits_value-injective base [] [] e hx hy v = refl
digits_value-injective base [] (y ∷ ys) e hx hy v = absurd (omega arith)
digits_value-injective base (x ∷ xs) [] e hx hy v = absurd (omega arith)
digits_value-injective base (x ∷ xs) (y ∷ ys) e (px, hx) (py, hy) v =
    let n : length xs ≡ length ys = omega arith in
    let (same, rest) =
      leading_digit x y (base ^ length ys) (digits_value base xs) (digits_value base ys)
        (rw (← n) (digits_value-lt base xs hx)) (digits_value-lt base ys hy) (rw n at v) in
    cc (same, digits_value-injective base xs ys n hx hy rest)
