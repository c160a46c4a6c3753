-- ===== src/Go/Decimal.antt =====
-- The verb `%d` of fmt.
use jack_service.Common.{ℕ, zero, suc, ◌/◌, ◌%◌, String, List, [], ◌∷◌, eqb, get_or, if◌then◌else◌}
use jack_service.Common.Int.{ℤ, pos, negsuc}
use jack_service.Common.Text.{Char, chars, of_chars, ◌+++◌}

abbrev pub zero_digit : Char
zero_digit = "0"

-- One digit for each round; a number has fewer digits than its successor.
unfoldable pub show_loop : ℕ → ℕ → List Char → List Char
show_loop zero n acc = acc
show_loop (suc fuel) n acc =
    let acc' = get_or (chars "0123456789") (n % 10) zero_digit ∷ acc in
    let rest = show_loop fuel (n / 10) acc' in if eqb (n / 10) 0 then acc' else rest

unfoldable pub show_ℕ : ℕ → String
unfolding show_loop
show_ℕ n = of_chars (show_loop (suc n) n [])

unfoldable pub show_ℤ : ℤ → String
unfolding show_ℕ
show_ℤ (pos n) = show_ℕ n
show_ℤ (negsuc n) = "-" +++ show_ℕ (suc n)
