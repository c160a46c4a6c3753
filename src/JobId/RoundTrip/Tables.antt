-- ===== src/JobId/RoundTrip/Tables.antt =====
-- The value of a base-62 character, checked against the alphabet of internal/jobid/jobid.go over all 62 digits.
use jack_service.Common.{
  ℕ, zero, suc, ◌+◌, ◌-◌, ◌<◌, ◌≡◌, refl, Bool, true, ◌&&◌, arith, leb, eqb, if◌then◌else◌,
}
use jack_service.Common.Text.{Char, code}
use jack_service.JobId.Base62.{base62_char}

unfoldable pub char_digit : Char → ℕ
char_digit c =
    if leb (code c) b'9'
    then code c - b'0'
    else if leb (code c) b'Z'
    then code c - b'A' + 10
    else code c - b'a' + 36

agree_below : ℕ → (ℕ → ℕ) → Bool
agree_below zero f = true
agree_below (suc n) f = eqb (f n) n && agree_below n f

agree_below→eq : (n : ℕ) (f : ℕ → ℕ) (d : ℕ) → agree_below n f ≡ true → d < n → f d ≡ d
unfolding agree_below
agree_below→eq zero f d h lt = absurd (omega arith)
agree_below→eq (suc n) f d h lt = ground (arith, agree_below→eq n f d)

table : agree_below 62 (λ d. char_digit (base62_char d)) ≡ true
unfolding agree_below char_digit base62_char
table = refl

pub char_digit-base62_char : (d : ℕ) → d < 62 → char_digit (base62_char d) ≡ d
char_digit-base62_char d h = agree_below→eq 62 _ d table h
