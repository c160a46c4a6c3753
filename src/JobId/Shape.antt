-- ===== src/JobId/Shape.antt =====
-- The text of a job ID (`Generate` and `encodeBase62` of internal/jobid/jobid.go): its length and its
-- characters.
use jack_service.Common.{
  ℕ, zero, suc, ◌+◌, ◌^◌, ◌≤◌, ◌<◌, ◌≡◌, refl, ap, ◌⊎◌, inl, inr, Bool, true, false, ◌&&◌, ◌||◌,
  String, List, [], ◌∷◌, map, arith, leb, eqb, eqb_iff, Bool-cases, if◌then◌else◌, length,
  length-append, length-map, length-reverse, All, All-reverse, digits_value-lt,
}
use jack_service.Common.Text.{Char, code, chars, chars-append, ◌+++◌}
use jack_service.Go.{Instant}
use jack_service.World.{World, Env, now}
use jack_service.JobId.{version, prefix, payload, generate}
use jack_service.JobId.Base62.{zero_char, base62_char, prepend_zeros, encode_base62}
use jack_service.JobId.Division.{IsByte, be_value}
use jack_service.JobId.Digits.{
  base62_digits, base62_digits-small, length-base62_digits-le, le-length-base62_digits,
}
use jack_service.JobId.RoundTrip.{encoded, chars-encode_base62, fuel_enough}
use jack_service.JobId.Fields.{IsSum256, IsRandom, length-payload, payload-IsByte}

-- What Cloud Tasks allows in the name of a task: [a-zA-Z0-9_-].
abbrev is_task_code : ℕ → Bool
is_task_code c =
    leb b'a' c && leb c b'z'
    || (leb b'A' c && leb c b'Z' || (leb b'0' c && leb c b'9' || (eqb c b'_' || eqb c b'-')))

abbrev pub IsTaskChar : Char → Type 0
IsTaskChar c = is_task_code (code c) ≡ true

-- The characters of `encodeBase62`.
alphabet_table : ℕ → Bool
alphabet_table zero = true
alphabet_table (suc n) = is_task_code (code (base62_char n)) && alphabet_table n

alphabet_table_sound : (n d : ℕ) → alphabet_table n ≡ true → d < n → IsTaskChar (base62_char d)
unfolding alphabet_table
alphabet_table_sound zero d h lt = absurd (omega arith)
alphabet_table_sound (suc n) d h lt = elim (Bool-cases (eqb d n)) [
  | inl same ↦ rw ((eqb_iff d n).0 same) (and_left _ _ h)
  | inr other ↦ alphabet_table_sound n d (and_right _ _ h) (below d n other lt)
]
  where
    and_left : (a b : Bool) → (a && b) ≡ true → a ≡ true
    and_left a b h = ground arith

    and_right : (a b : Bool) → (a && b) ≡ true → b ≡ true
    and_right a b h = ground arith

    below : (d n : ℕ) → eqb d n ≡ false → d < suc n → d < n
    below d n o lt = ground arith

base62_char-IsTaskChar : (d : ℕ) → d < 62 → IsTaskChar (base62_char d)
unfolding alphabet_table base62_char
base62_char-IsTaskChar d h = alphabet_table_sound 62 d refl h

map-IsTaskChar : (ds : List ℕ) → All (λ d. d < 62) ds → All IsTaskChar (map base62_char ds)
map-IsTaskChar [] h = tt
map-IsTaskChar (d ∷ ds) (p, h) = (base62_char-IsTaskChar d p, map-IsTaskChar ds h)

prepend_zeros-IsTaskChar :
    (bs : List ℕ) (cs : List Char) → All IsTaskChar cs → All IsTaskChar (prepend_zeros bs cs)
unfolding prepend_zeros
prepend_zeros-IsTaskChar [] cs h = h
prepend_zeros-IsTaskChar (b ∷ bs) cs h = elim (Bool-cases (eqb b 0)) [
  | inl z ↦ rw z (prepend_zeros-IsTaskChar bs (zero_char ∷ cs) (refl, h))
  | inr nz ↦ rw nz h
]

encoded-IsTaskChar : (bytes : List ℕ) → All IsTaskChar (encoded bytes)
unfolding encoded
encoded-IsTaskChar bytes =
    prepend_zeros-IsTaskChar bytes _
      (All-reverse IsTaskChar _ (map-IsTaskChar _ (base62_digits-small _ (be_value bytes))))

encode_base62-IsTaskChar :
    (bytes : List ℕ) → All IsByte bytes → All IsTaskChar (chars (encode_base62 bytes))
encode_base62-IsTaskChar [] h = unfold encode_base62 in tt
encode_base62-IsTaskChar (b ∷ bs) h =
    rw (chars-encode_base62 b bs h) (choose _ _ (encoded-IsTaskChar (b ∷ bs)))
  where
    choose :
        (t : Bool) (cs : List Char)
        → All IsTaskChar cs
        → All IsTaskChar (if t then zero_char ∷ [] else cs)
    choose true cs h = (refl, tt)
    choose false cs h = h

length-encoded :
    (b : ℕ) (bs : List ℕ)
    → eqb b 0 ≡ false
    → length (encoded (b ∷ bs))
      ≡ length (base62_digits (suc (length bs) + suc (length bs)) (be_value (b ∷ bs)))
unfolding encoded prepend_zeros
length-encoded b bs h = rw (h, length-reverse, length-map)

-- The value of a slice of 21 bytes that begins with the version.
value_bounds :
    (bs : List ℕ)
    → length bs ≡ 20
    → All IsByte bs
    → (62 ^ 26 ≤ be_value (version ∷ bs)) × (be_value (version ∷ bs) < 62 ^ 28)
value_bounds bs n h =
    let top : 256 ^ length bs ≡ 256 ^ 20 = ap (λ (k : ℕ). 256 ^ k) n in
    omega (arith, top, digits_value-lt 256 bs h)

length-encode_base62 :
    (bs : List ℕ)
    → length bs ≡ 20
    → All IsByte bs
    → (27 ≤ length (chars (encode_base62 (version ∷ bs))))
      × (length (chars (encode_base62 (version ∷ bs))) ≤ 28)
length-encode_base62 bs n h =
    let bytes : All IsByte (version ∷ bs) = (omega arith, h) in
    let (low, high) = value_bounds bs n h in
    let digits = length-encoded version bs refl in
    let fuel = length (version ∷ bs) + length (version ∷ bs) in
    let least =
      le-length-base62_digits fuel 26 (be_value (version ∷ bs)) (fuel_enough (version ∷ bs) bytes)
        low in
    let most = length-base62_digits-le fuel 28 (be_value (version ∷ bs)) high in
    rw (chars-encode_base62 version bs bytes)
      (choose (encoded (version ∷ bs)) (omega (arith, digits, least)) (omega (arith, digits, most)))
  where
    choose :
        (cs : List Char)
        → 27 ≤ length cs
        → length cs ≤ 28
        → (27 ≤ length (if eqb (length cs) 0 then zero_char ∷ [] else cs))
          × (length (if eqb (length cs) 0 then zero_char ∷ [] else cs) ≤ 28)
    choose cs l m = ground arith

payload-cons :
    (sha256 : List ℕ → List ℕ) (time : Instant) (app job : String) (random : List ℕ)
    → (bs : List ℕ) × (payload sha256 time app job random ≡ version ∷ bs)
unfolding payload
payload-cons sha256 time app job random = (_, refl)

abbrev IsShaped : String → Type 0
IsShaped id = ((length (chars id) ≡ 32) ⊎ (length (chars id) ≡ 33)) × All IsTaskChar (chars id)

text-IsShaped :
    (bs bytes : List ℕ)
    → bytes ≡ version ∷ bs
    → length bytes ≡ 21
    → All IsByte bytes
    → IsShaped (prefix +++ encode_base62 bytes)
text-IsShaped bs bytes e n h =
    let n' : length bs ≡ 20 = omega (arith, ap length e) in
    let (one, h') = rw e at h in
    let (least, most) = length-encode_base62 bs n' h' in
    rw e (
      rw chars-append (
        omega (
          arith,
          length-append (chars prefix) (chars (encode_base62 (version ∷ bs))),
          least,
          most,
        ),
        (refl, (refl, (refl, (refl, (refl, encode_base62-IsTaskChar (version ∷ bs) (one, h')))))),
      ))

-- If a SHA-256 sum has 32 bytes and crypto/rand fills its slice, a job ID has 32 or 33 characters (the prefix and
-- 27 or 28 more), and all of them may stand in the name of a Cloud Tasks task.
pub generate_shape :
    (sha256 : List ℕ → List ℕ) (sum : IsSum256 sha256) (env : Env) (random : IsRandom env)
    (app job : String) (w : World)
    → ((length (chars (generate sha256 env app job w).0) ≡ 32)
        ⊎ (length (chars (generate sha256 env app job w).0) ≡ 33))
      × All IsTaskChar (chars (generate sha256 env app job w).0)
unfolding generate
generate_shape sha256 sum env random app job w =
    let history = (now env w).1.history in
    let n = random.as_long history 4 in
    let (bs, e) = payload-cons sha256 (now env w).0 app job (env.entropy history 4) in
    text-IsShaped bs (payload sha256 (now env w).0 app job (env.entropy history 4)) e
      (length-payload sha256 sum _ app job _ n)
      (payload-IsByte sha256 sum _ app job _ n (random.bytes history 4))
