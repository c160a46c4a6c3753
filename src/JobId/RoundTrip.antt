-- ===== src/JobId/RoundTrip.antt =====
-- Decoding what `encodeBase62` (internal/jobid/jobid.go) writes.
mod Tables
use native.Mathlib.Nat.{pow-zero, pow-suc}
use mathlib.Core.List.{reverse}
use jack_service.Common.{
  ℕ, zero, suc, ◌+◌, ◌*◌, ◌^◌, ◌≤◌, ◌<◌, ◌≡◌, ◌∙◌, refl, ap, sym, Bool, true, false, inl, inr, List,
  [], ◌∷◌, ◌++◌, map, arith, eqb, Bool-cases, if◌then◌else◌, not, length, map-reverse, All,
  digits_value, digits_value-lt, digits_value-injective, pow-add, String,
}
use jack_service.Common.Text.{Char, chars, of_chars, chars-of_chars}
use jack_service.JobId.Base62.{
  zero_char, base62_char, is_zero, digits_loop, prepend_zeros, encode_base62,
}
use jack_service.JobId.Division.{IsByte, be_value}
use jack_service.JobId.Digits.{
  base62_digits, base62_digits-small, base62_digits-value, digits_loop-eq, digits_loop_ends,
}
use Tables.{char_digit, char_digit-base62_char}

-- The number that a base-62 text stands for; the program has no decoder.
unfoldable pub decode_base62 : List Char → ℕ
unfolding char_digit
decode_base62 cs = digits_value 62 (map char_digit cs)

map-char_digit : (ds : List ℕ) → All (λ d. d < 62) ds → map char_digit (map base62_char ds) ≡ ds
map-char_digit [] h = refl
map-char_digit (d ∷ ds) (p, h) = cc (char_digit-base62_char d p, map-char_digit ds h)

pow_bound : (n : ℕ) → 256 ^ n ≤ 62 ^ (n + n)
pow_bound zero = omega arith
pow_bound (suc n) =
    let twice : 62 ^ (suc n + suc n) ≡ 62 ^ suc (suc (n + n)) =
      ap (λ (t : ℕ). 62 ^ t) (omega arith) in
    omega (arith, twice, pow-suc 62 (suc (n + n)), pow-suc 62 (n + n), pow-suc 256 n, pow_bound n)

pub fuel_enough : (bs : List ℕ) → All IsByte bs → be_value bs < 62 ^ (length bs + length bs)
fuel_enough bs h = omega (arith, digits_value-lt 256 bs h, pow_bound (length bs))

decode-prepend_zeros :
    (bs : List ℕ) (cs : List Char) → decode_base62 (prepend_zeros bs cs) ≡ decode_base62 cs
unfolding prepend_zeros
decode-prepend_zeros [] cs = refl
decode-prepend_zeros (b ∷ bs) cs = elim (Bool-cases (eqb b 0)) [
  | inl z ↦ rw (z, decode-prepend_zeros bs (zero_char ∷ cs)) (unfold decode_base62 in omega arith)
  | inr nz ↦ rw nz
]

decode-digits :
    (n v : ℕ) → v < 62 ^ n → decode_base62 (reverse (map base62_char (base62_digits n v))) ≡ v
unfolding decode_base62
decode-digits n v h =
    rw (map-reverse, map-char_digit _ (base62_digits-small n v)) (base62_digits-value n v h)

-- The characters before the test of their number.
unfoldable pub encoded : List ℕ → List Char
encoded bytes =
    prepend_zeros bytes
      (reverse (map base62_char (base62_digits (length bytes + length bytes) (be_value bytes))))

pub chars-encode_base62 :
    (b : ℕ) (bs : List ℕ)
    → All IsByte (b ∷ bs)
    → chars (encode_base62 (b ∷ bs))
      ≡ (if eqb (length (encoded (b ∷ bs))) 0 then zero_char ∷ [] else encoded (b ∷ bs))
unfolding encode_base62 encoded
chars-encode_base62 b bs h =
    rw (digits_loop-eq (suc (length bs) + suc (length bs)) (b ∷ bs) [] h) (branch _ _)
  where
    branch :
        (t : Bool) (cs : List Char)
        → chars (if t then of_chars (zero_char ∷ []) else of_chars cs)
          ≡ (if t then zero_char ∷ [] else cs)
    branch true cs = refl
    branch false cs = chars-of_chars cs

decode-encoded :
    (bytes : List ℕ) → All IsByte bytes → decode_base62 (encoded bytes) ≡ be_value bytes
unfolding encoded
decode-encoded bytes h = rw decode-prepend_zeros (decode-digits _ _ (fuel_enough bytes h))

eqb-suc : (n : ℕ) → eqb (suc n) 0 ≡ false
eqb-suc n = ground arith

-- Decoding the base-62 text of a slice of bytes gives back the number that the bytes stand for.
pub decode-encode_base62 :
    (bytes : List ℕ)
    → All IsByte bytes
    → decode_base62 (chars (encode_base62 bytes)) ≡ be_value bytes
decode-encode_base62 [] h = unfold encode_base62 decode_base62 in refl
decode-encode_base62 (b ∷ bs) h =
    rw (chars-encode_base62 b bs h) (choose (encoded (b ∷ bs)) (decode-encoded (b ∷ bs) h))
  where
    choose :
        (cs : List Char)
        → decode_base62 cs ≡ be_value (b ∷ bs)
        → decode_base62 (if eqb (length cs) 0 then zero_char ∷ [] else cs) ≡ be_value (b ∷ bs)
    choose [] e = rw (← e) (unfold decode_base62 in refl)
    choose (c ∷ cs) e = rw (eqb-suc (length cs)) e

-- Twice as many rounds as bytes are enough for the loop `for !isZero(num)` to come to an end by itself:
-- its condition is false of the slice that is left.
pub digits_loop-is_zero :
    (bytes : List ℕ)
    → All IsByte bytes
    → is_zero (digits_loop (length bytes + length bytes) bytes []).0 ≡ true
digits_loop-is_zero bytes h =
    digits_loop_ends (length bytes + length bytes) bytes [] h (fuel_enough bytes h)
