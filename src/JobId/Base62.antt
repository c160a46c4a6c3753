-- ===== src/JobId/Base62.antt =====
-- `encodeBase62`, `isZero` and `divideBy62` of internal/jobid/jobid.go.
use mathlib.Core.List.{reverse}
use jack_service.Common.{
  ℕ, zero, suc, ◌+◌, ◌*◌, ◌/◌, ◌%◌, ◌≡◌, refl, Bool, true, false, not, List, [], ◌∷◌, ◌++◌, String,
  eqb, if◌then◌else◌, length, get_or,
}
use jack_service.Common.Text.{Char, chars, of_chars}

abbrev pub base62_alphabet : String
base62_alphabet = "0123456789ABCDEFGHIJKLMNOPQRSTUVWXYZabcdefghijklmnopqrstuvwxyz"

-- `base62Alphabet[r]`; the program indexes with remainders below 62 alone.
abbrev pub zero_char : Char
zero_char = "0"

unfoldable pub base62_char : ℕ → Char
base62_char r = get_or (chars base62_alphabet) r zero_char

-- The loop returns false at the first byte that is not 0.
unfoldable pub is_zero : List ℕ → Bool
is_zero [] = true
is_zero (b ∷ bs) = if not (eqb b 0) then false else is_zero bs

-- The loop of `divideBy62` from the byte at hand on; `byte(val / 62)` keeps the low eight bits.
unfoldable pub divide_loop : ℕ → List ℕ → List ℕ × ℕ
divide_loop remainder [] = ([], remainder)
divide_loop remainder (b ∷ bs) =
    let val = remainder * 256 + b in
    let (quotient, last) = divide_loop (val % 62) bs in ((val / 62 % 256) ∷ quotient, last)

-- The slice after the division, and the remainder.
unfoldable pub divide_by_62 : List ℕ → List ℕ × ℕ
unfolding divide_loop
divide_by_62 num = divide_loop 0 num

-- `for !isZero(num)`: on fuel, with the slice as the loop leaves it and the characters appended.
unfoldable pub digits_loop : ℕ → List ℕ → List Char → List ℕ × List Char
digits_loop zero num result = (num, result)
digits_loop (suc fuel) num result =
    let (quotient, remainder) = divide_by_62 num in
    let rest = digits_loop fuel quotient (result ++ base62_char remainder ∷ []) in
    if not (is_zero num) then rest else (num, result)

-- One alphabet zero in front for each zero byte that `data` begins with.
unfoldable pub prepend_zeros : List ℕ → List Char → List Char
prepend_zeros [] result = result
prepend_zeros (b ∷ bs) result =
    if not (eqb b 0) then result else prepend_zeros bs (zero_char ∷ result)

-- Two base-62 digits hold more than a byte, so twice as many rounds as bytes are enough.
unfoldable pub encode_base62 : List ℕ → String
unfolding divide_by_62 is_zero digits_loop prepend_zeros base62_char
encode_base62 [] = ""
encode_base62 (b ∷ bs) =
    let bytes = b ∷ bs in
    let (_, digits) = digits_loop (length bytes + length bytes) bytes [] in
    let result = prepend_zeros bytes (reverse digits) in
    if eqb (length result) 0 then of_chars (zero_char ∷ []) else of_chars result

encode_base62_255 : encode_base62 (0 ∷ 1 ∷ 255 ∷ []) ≡ "08F"
unfolding encode_base62
encode_base62_255 = refl
