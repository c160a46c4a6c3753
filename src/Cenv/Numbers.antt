-- ===== src/Cenv/Numbers.antt =====
-- `GetInt` and `GetIntOrDefault` of internal/cenv/cenv.go on decimal numbers: strconv.Atoi against the verb
-- `%d`.
use jack_service.Common.{
  ℕ, zero, suc, ◌+◌, ◌-◌, ◌*◌, ◌/◌, ◌%◌, ◌^◌, ◌<◌, ◌≡◌, ◌≢◌, refl, ap, ◌∙◌, true, false, ◌&&◌,
  String, List, [], ◌∷◌, Option, none, some, leb, ltb, eqb, if◌then◌else◌, Bool-cases, inl, inr,
  arith, get_or,
}
use jack_service.Common.Int.{ℤ, pos}
use jack_service.Common.Text.{Char, code, chars, chars-of_chars}
use jack_service.Go.{zero_digit, show_loop, show_ℕ}
use jack_service.Cenv.{
  read_digits, read_number, signed, atoi, positive, max_int, get, value_or, get_int,
  get_int_or_default,
}

abbrev digit : ℕ → Char
digit d = get_or (chars "0123456789") d zero_digit

digit_code : (d : ℕ) → d < 10 → code (digit d) ≡ b'0' + d
digit_code zero h = refl
digit_code (suc zero) h = refl
digit_code (suc (suc zero)) h = refl
digit_code (suc (suc (suc zero))) h = refl
digit_code (suc (suc (suc (suc zero)))) h = refl
digit_code (suc (suc (suc (suc (suc zero))))) h = refl
digit_code (suc (suc (suc (suc (suc (suc zero)))))) h = refl
digit_code (suc (suc (suc (suc (suc (suc (suc zero))))))) h = refl
digit_code (suc (suc (suc (suc (suc (suc (suc (suc zero)))))))) h = refl
digit_code (suc (suc (suc (suc (suc (suc (suc (suc (suc zero))))))))) h = refl
digit_code (suc (suc (suc (suc (suc (suc (suc (suc (suc (suc d)))))))))) h = absurd (omega arith)

read_digit :
    (d m : ℕ) (cs : List Char) → d < 10 → read_digits (digit d ∷ cs) m ≡ read_digits cs (m * 10 + d)
unfolding read_digits
read_digit d m cs h =
    let value : code (digit d) - b'0' ≡ d = omega (arith, digit_code d h) in
    let test : leb b'0' (code (digit d)) && leb (code (digit d)) b'9' ≡ true =
      ground (arith, digit_code d h) in
    rw (test, value) refl

-- The digits of a number, read after none, are the number.
read-show_loop :
    (fuel n : ℕ) (acc : List Char)
    → n < fuel
    → read_digits (show_loop fuel n acc) 0 ≡ read_digits acc n
unfolding show_loop
read-show_loop zero n acc h = absurd (omega arith)
read-show_loop (suc fuel) n acc h =
    let small : n % 10 < 10 = omega arith in
    elim (Bool-cases (eqb (n / 10) 0)) [
      | inl last ↦ rw last (
          read_digit (n % 10) 0 acc small
          ∙ ap (read_digits acc) (let z : n / 10 ≡ 0 = ground arith in omega arith))
      | inr more ↦ rw more (
          read-show_loop fuel (n / 10) (digit (n % 10) ∷ acc)
            (let nz : n / 10 ≢ 0 = ground arith in omega arith)
          ∙ read_digit (n % 10) (n / 10) acc small
          ∙ ap (read_digits acc) (omega arith))
    ]

-- A text that reads as a number begins with a digit, so it has no sign.
signed-read_digits :
    (c : Char) (cs : List Char) {n : ℕ}
    → read_digits (c ∷ cs) 0 ≡ some n
    → signed (c ∷ cs) ≡ positive (some n)
unfolding signed read_number
signed-read_digits c cs h = elim (Bool-cases (leb b'0' (code c) && leb (code c) b'9')) [
  | inr other ↦ absurd (none-some (unfold read_digits in rw other at h))
  | inl ok_digit ↦
      let minus : eqb (code c) b'-' ≡ false = ground arith in
      let plus : eqb (code c) b'+' ≡ false = ground arith in rw (minus, plus, h) refl
]
  where
    none-some : {x : ℕ} → ◌≡◌ {A = Option ℕ} none (some x) → ⊥
    none-some e = cc

signed_digits :
    (cs : List Char) (n : ℕ) → read_digits cs 0 ≡ some n → cs ≢ [] → signed cs ≡ positive (some n)
signed_digits [] n h ne = absurd (ne refl)
signed_digits (c ∷ cs) n h ne = signed-read_digits c cs h

show_loop_nonempty : (fuel n : ℕ) (c : Char) (acc : List Char) → show_loop fuel n (c ∷ acc) ≢ []
unfolding show_loop
show_loop_nonempty zero n c acc h = cc
show_loop_nonempty (suc fuel) n c acc h = elim (Bool-cases (eqb (n / 10) 0)) [
  | inl last ↦ cc (rw last at h)
  | inr more ↦ show_loop_nonempty fuel (n / 10) _ _ (rw more at h)
]

show_loop_some : (n : ℕ) → show_loop (suc n) n [] ≢ []
unfolding show_loop
show_loop_some n h = elim (Bool-cases (eqb (n / 10) 0)) [
  | inl last ↦ cc (rw last at h)
  | inr more ↦ show_loop_nonempty n (n / 10) _ _ (rw more at h)
]

-- Atoi reads what %d writes of a number: the number if it is an int, and else the largest int with an error.
atoi-show_ℕ : (n : ℕ) → atoi (show_ℕ n) ≡ positive (some n)
unfolding atoi show_ℕ
atoi-show_ℕ n = rw (chars-of_chars (show_loop (suc n) n [])) (
    signed_digits (show_loop (suc n) n []) n
      (read-show_loop (suc n) n [] (omega arith) ∙ (unfold read_digits in refl)) (show_loop_some n))

-- Of a variable that holds a number as %d writes it, GetInt and GetIntOrDefault return the number if it is
-- an int; of a larger number GetInt returns the largest int, and GetIntOrDefault the default.
pub get_int-show_ℕ :
    (environ : String → String) (key : String) (n : ℕ)
    → get environ key ≡ show_ℕ n
    → (get_int environ key ≡ (if ltb n (2 ^ 63) then pos n else max_int))
      × ((d : ℤ) → get_int_or_default environ key d ≡ (if ltb n (2 ^ 63) then pos n else d))
unfolding get_int get_int_or_default
get_int-show_ℕ environ key n e =
    let read = ap atoi e ∙ atoi-show_ℕ n in
    elim (Bool-cases (ltb n (2 ^ 63))) [
      | inl small ↦ (ap (λ r. r.0) read ∙ rw small refl, λ d. ap (value_or d) read ∙ rw small refl)
      | inr large ↦ (ap (λ r. r.0) read ∙ rw large refl, λ d. ap (value_or d) read ∙ rw large refl)
    ]
