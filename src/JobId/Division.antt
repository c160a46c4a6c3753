-- ===== src/JobId/Division.antt =====
-- What `divideBy62` and `isZero` of internal/jobid/jobid.go compute, as numbers: a byte slice is read
-- in base 256, the most significant byte first.
use native.Mathlib.Nat.{pow-zero, pow-suc, div-add-mod}
use jack_service.Common.{
  ℕ, zero, suc, ◌+◌, ◌*◌, ◌/◌, ◌%◌, ◌^◌, ◌<◌, ◌≡◌, refl, ap, inl, inr, Bool, false, not, Bool-cases,
  eqb_iff, if◌then◌else◌, List, [], ◌∷◌, arith, eqb, length, All, digits_value,
}
use jack_service.JobId.Base62.{is_zero, divide_loop, divide_by_62}

abbrev pub IsByte : ℕ → Type 0
IsByte b = b < 256

-- The number that a byte slice stands for.
abbrev pub be_value : List ℕ → ℕ
be_value = digits_value 256

pow_pos : (n : ℕ) → 0 < 256 ^ n
pow_pos zero = rw pow-zero (omega arith)
pow_pos (suc n) = rw pow-suc (omega (arith, pow_pos n))

zero_first :
    (b P V : ℕ) (rest : Bool)
    → 0 < P
    → rest ≡ eqb V 0
    → (if not (eqb b 0) then false else rest) ≡ eqb (b * P + V) 0
zero_first b P V rest h e = elim (Bool-cases (eqb b 0)) [
  | inl z ↦ rw (z, (eqb_iff b 0).0 z) (ground arith)
  | inr nz ↦ rw nz (ground (arith, product_pos b P))
]
  where
    product_pos : (b P : ℕ) → eqb b 0 ≡ false → 0 < P → 0 < b * P
    product_pos b P n h = grind arith

pub is_zero-eq : (bs : List ℕ) → is_zero bs ≡ eqb (be_value bs) 0
unfolding is_zero
is_zero-eq [] = refl
is_zero-eq (b ∷ bs) =
    zero_first b (256 ^ length bs) (be_value bs) (is_zero bs) (pow_pos (length bs)) (is_zero-eq bs)

-- `P` stands for `256 ^ length bs`.
carry :
    (r b P V W last : ℕ)
    → (r * 256 + b) % 62 * P + V ≡ 62 * W + last
    → r * (P * 256) + (b * P + V) ≡ 62 * ((r * 256 + b) / 62 * P + W) + last
carry r b P V W last h = omega (arith, h, ap (λ (t : ℕ). t * P) (div-add-mod (r * 256 + b) 62))

-- `val / 62` fits a byte.
no_overflow : (r b : ℕ) → r < 62 → b < 256 → (r * 256 + b) / 62 % 256 ≡ (r * 256 + b) / 62
no_overflow r b hr hb = omega arith

pub record IsDivision (r : ℕ) (bs : List ℕ) (res : List ℕ × ℕ) : Type 0 where
  pub as_long : length res.0 ≡ length bs
  pub bytes : All IsByte res.0
  pub small : res.1 < 62
  pub exact : r * 256 ^ length bs + be_value bs ≡ 62 * be_value res.0 + res.1

pub divide_loop-IsDivision :
    (r : ℕ) (bs : List ℕ) → r < 62 → All IsByte bs → IsDivision r bs (divide_loop r bs)
unfolding divide_loop
divide_loop-IsDivision r [] h _ = record {
  as_long = refl;
  bytes = tt;
  small = h;
  exact = rw pow-zero (omega arith);
}
divide_loop-IsDivision r (b ∷ bs) h (hb, hbs) =
    let ih = divide_loop-IsDivision ((r * 256 + b) % 62) bs (omega arith) hbs in
    record {
      as_long = ap suc ih.as_long;
      bytes = (omega arith, ih.bytes);
      small = ih.small;
      exact = rw (pow-suc, ih.as_long, no_overflow r b h hb) (carry r b _ _ _ _ ih.exact);
    }

-- `divideBy62` turns the slice into the quotient by 62, of the same length and still of bytes (the
-- conversion to a byte loses nothing), and returns the remainder.
pub divide_by_62-lem :
    (num : List ℕ)
    → All IsByte num
    → (be_value (divide_by_62 num).0 ≡ be_value num / 62)
      × ((divide_by_62 num).1 ≡ be_value num % 62)
      × (length (divide_by_62 num).0 ≡ length num)
      × All IsByte (divide_by_62 num).0
unfolding divide_by_62
divide_by_62-lem num h =
    let d = divide_loop-IsDivision 0 num (omega arith) h in
    (omega (arith, d.exact, d.small), omega (arith, d.exact, d.small), d.as_long, d.bytes)
