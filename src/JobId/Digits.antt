-- ===== src/JobId/Digits.antt =====
-- The base-62 digits that the loop of `encodeBase62` (internal/jobid/jobid.go) appends, the least
-- significant first, described on the number itself.
use native.Mathlib.Nat.{pow-suc, div-add-mod, one-le-pow}
use mathlib.Core.List.{reverse, reverse-cons, append_assoc, append-nil}
use jack_service.Common.{
  ℕ, zero, suc, ◌/◌, ◌%◌, ◌^◌, ◌≤◌, ◌<◌, ◌≡◌, sym, inl, inr, true, List, [], ◌∷◌, ◌++◌, map, arith,
  eqb, eqb_iff, Bool-cases, if◌then◌else◌, length, All, digits_value, digits_value-append,
}
use jack_service.Common.Text.{Char}
use jack_service.JobId.Base62.{base62_char, is_zero, divide_by_62, digits_loop}
use jack_service.JobId.Division.{IsByte, be_value, is_zero-eq, divide_by_62-lem}

pub base62_digits : ℕ → ℕ → List ℕ
base62_digits zero v = []
base62_digits (suc n) v =
    let rest = base62_digits n (v / 62) in if eqb v 0 then [] else (v % 62) ∷ rest

-- The loop appends these digits, and the number that is left is the one divided that often.
pub digits_loop-eq :
    (fuel : ℕ) (num : List ℕ) (result : List Char)
    → All IsByte num
    → (digits_loop fuel num result).1
      ≡ result ++ map base62_char (base62_digits fuel (be_value num))
unfolding digits_loop base62_digits
digits_loop-eq zero num result h = sym (append-nil result)
digits_loop-eq (suc fuel) num result h =
    let (quotient, remainder, _, bytes) = divide_by_62-lem num h in
    elim (Bool-cases (eqb (be_value num) 0)) [
      | inl z ↦ rw (is_zero-eq, z) (sym (append-nil result))
      | inr nz ↦
          rw
            (
              is_zero-eq,
              nz,
              digits_loop-eq fuel (divide_by_62 num).0
                  (result ++ base62_char (divide_by_62 num).1 ∷ []) bytes,
              quotient,
              remainder,
            )
            (append_assoc result _ _)
    ]

below_next : (n v : ℕ) → v < 62 ^ suc n → v / 62 < 62 ^ n
below_next n v h = omega (arith, h, pow-suc 62 n)

-- With enough fuel the loop ends because nothing is left.
pub digits_loop_ends :
    (fuel : ℕ) (num : List ℕ) (result : List Char)
    → All IsByte num
    → be_value num < 62 ^ fuel
    → is_zero (digits_loop fuel num result).0 ≡ true
unfolding digits_loop
digits_loop_ends zero num result h lt =
    rw is_zero-eq (let z : be_value num ≡ 0 = omega arith in rw z)
digits_loop_ends (suc fuel) num result h lt =
    let (quotient, _, _, bytes) = divide_by_62-lem num h in
    elim (Bool-cases (is_zero num)) [
      | inl z ↦ rw (z) z
      | inr nz ↦ rw nz (
          digits_loop_ends fuel (divide_by_62 num).0 _ bytes
            (rw quotient (below_next fuel (be_value num) lt)))
    ]

pub base62_digits-small : (n v : ℕ) → All (λ d. d < 62) (base62_digits n v)
unfolding base62_digits
base62_digits-small zero v = tt
base62_digits-small (suc n) v = ground (arith, base62_digits-small n (v / 62))

pub base62_digits-value : (n v : ℕ) → v < 62 ^ n → digits_value 62 (reverse (base62_digits n v)) ≡ v
unfolding base62_digits
base62_digits-value zero v h = omega arith
base62_digits-value (suc n) v h = elim (Bool-cases (eqb v 0)) [
  | inl z ↦ rw z (sym ((eqb_iff v 0).0 z))
  | inr nz ↦
      rw (nz, reverse-cons, digits_value-append, base62_digits-value n (v / 62) (below_next n v h))
        (omega (arith, div-add-mod v 62))
]

-- The number of digits of `v`, from above and from below.
pub length-base62_digits-le : (n k v : ℕ) → v < 62 ^ k → length (base62_digits n v) ≤ k
unfolding base62_digits
length-base62_digits-le zero k v h = omega arith
length-base62_digits-le (suc n) zero v h = ground arith
length-base62_digits-le (suc n) (suc k) v h =
    ground (arith, length-base62_digits-le n k (v / 62) (below_next k v h))

above_next : (k v : ℕ) → 62 ^ suc k ≤ v → (62 ^ k ≤ v / 62) × (1 ≤ v)
above_next k v h = omega (arith, h, pow-suc 62 k, one-le-pow k 62)

pub le-length-base62_digits :
    (n k v : ℕ) → v < 62 ^ n → 62 ^ k ≤ v → suc k ≤ length (base62_digits n v)
unfolding base62_digits
le-length-base62_digits zero k v h l = absurd (omega (arith, one-le-pow k 62))
le-length-base62_digits (suc n) zero v h l = ground arith
le-length-base62_digits (suc n) (suc k) v h l =
    let (below, pos) = above_next k v l in
    ground (arith, le-length-base62_digits n k (v / 62) (below_next n v h) below)
