-- ===== src/Cenv.antt =====
-- internal/cenv/cenv.go: environment variables. `environ` is os.Getenv, "" for a variable that is not set;
-- time.ParseDuration is a parameter.
pub mod Numbers
pub mod Names
use mathlib.Core.List.{reverse}
use jack_service.Common.{
  ℕ, zero, suc, ◌+◌, ◌-◌, ◌*◌, ◌^◌, String, Bool, true, false, not, ◌&&◌, ◌||◌, List, [], ◌∷◌,
  Option, none, some, Result, ok, err, leb, ltb, eqb, if◌then◌else◌,
}
use jack_service.Common.Int.{ℤ, pos, negsuc}
use jack_service.Common.Text.{Char, code, chars, of_chars, ◌==◌}
use jack_service.Go.{Duration, Error, text}

-- unicode.IsSpace
abbrev pub is_space : Char → Bool
is_space c =
    let n = code c in
    leb 9 n && leb n 13
    || eqb n 32
    || eqb n 133
    || eqb n 160
    || eqb n 5760
    || leb 8192 n && leb n 8202
    || eqb n 8232
    || eqb n 8233
    || eqb n 8239
    || eqb n 8287
    || eqb n 12288

unfoldable pub drop_spaces : List Char → List Char
drop_spaces [] = []
drop_spaces (c ∷ cs) = let rest = drop_spaces cs in if is_space c then rest else c ∷ cs

-- strings.TrimSpace
unfoldable pub trim_space : String → String
unfolding drop_spaces
trim_space s = of_chars (reverse (drop_spaces (reverse (drop_spaces (chars s)))))

-- The value of decimal digits, after those read so far.
unfoldable pub read_digits : List Char → ℕ → Option ℕ
read_digits [] n = some n
read_digits (c ∷ cs) n =
    let rest = read_digits cs (n * 10 + (code c - b'0')) in
    if leb b'0' (code c) && leb (code c) b'9' then rest else none

unfoldable pub read_number : List Char → Option ℕ
unfolding read_digits
read_number [] = none
read_number (c ∷ cs) = read_digits (c ∷ cs) 0

abbrev pub max_int : ℤ
max_int = pos (2 ^ 63 - 1)

abbrev pub min_int : ℤ
min_int = negsuc (2 ^ 63 - 1)

abbrev out_of_range : Option Error
out_of_range = some (text "value out of range")

abbrev pub positive : Option ℕ → ℤ × Option Error
positive none = (pos 0, some (text "invalid syntax"))
positive (some n) = if ltb n (2 ^ 63) then (pos n, none) else (max_int, out_of_range)

abbrev pub negative : Option ℕ → ℤ × Option Error
negative none = (pos 0, some (text "invalid syntax"))
negative (some zero) = (pos 0, none)
negative (some (suc n)) = if ltb n (2 ^ 63) then (negsuc n, none) else (min_int, out_of_range)

unfoldable pub signed : List Char → ℤ × Option Error
unfolding read_number
signed [] = positive none
signed (c ∷ cs) =
    if eqb (code c) b'-'
    then negative (read_number cs)
    else if eqb (code c) b'+'
    then positive (read_number cs)
    else positive (read_number (c ∷ cs))

-- strconv.Atoi: on a number out of range, the nearest int and an error.
unfoldable pub atoi : String → ℤ × Option Error
unfolding signed
atoi s = signed (chars s)

-- strconv.ParseBool
unfoldable pub parse_bool : String → Bool × Option Error
parse_bool s =
    if s == "1" || s == "t" || s == "T" || s == "TRUE" || s == "true" || s == "True"
    then (true, none)
    else if s == "0" || s == "f" || s == "F" || s == "FALSE" || s == "false" || s == "False"
    then (false, none)
    else (false, some (text "invalid syntax"))

-- The value, or the default for an error.
abbrev pub value_or : {A : Type 0} → A → A × Option Error → A
value_or default_value (v, none) = v
value_or default_value (v, some e) = default_value

module _ (environ : String → String) where
  unfoldable pub get : String → String
  unfolding trim_space
  get key = trim_space (environ key)

  unfoldable pub get_or_default : String → String → String
  unfolding get
  get_or_default key default_value = let v = get key in if v == "" then default_value else v

  unfoldable pub get_int : String → ℤ
  unfolding get atoi
  get_int key = (atoi (get key)).0

  unfoldable pub get_int_or_default : String → ℤ → ℤ
  unfolding get atoi
  get_int_or_default key default_value = value_or default_value (atoi (get key))

  unfoldable pub get_bool : String → Bool
  unfolding get parse_bool
  get_bool key = (parse_bool (get key)).0

  unfoldable pub get_bool_or_default : String → Bool → Bool
  unfolding get parse_bool
  get_bool_or_default key default_value = value_or default_value (parse_bool (get key))

  unfoldable pub is_set : String → Bool
  unfolding get
  is_set key = not (get key == "")

  module _ (parse_duration : String → Result Error Duration) where
    unfoldable pub get_duration : String → Duration
    unfolding get
    get_duration key = elim (parse_duration (get key)) [ ok v ↦ v | err e ↦ pos 0 ]

    unfoldable pub get_duration_or_default : String → Duration → Duration
    unfolding get
    get_duration_or_default key default_value = elim (parse_duration (get key)) [
      | ok v ↦ v
      | err e ↦ default_value
    ]
