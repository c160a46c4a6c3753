-- ===== src/JobId/Fields.antt =====
-- What the bytes of a job ID (`Generate` of internal/jobid/jobid.go) hold.
use jack_service.Common.{
  ℕ, ◌%◌, ◌^◌, ◌≡◌, refl, ap, sym, ◌∙◌, String, List, ◌++◌, arith, length, length-append,
  length-take_of_lt, take, All, All-append, All-take, append_inj, ∷-injective,
  digits_value-injective,
}
use jack_service.Common.Int.{ℤ, pos, negsuc}
use jack_service.Go.{Instant, unix_milli, byte_shifted, bytes_of}
use jack_service.JobId.{fields, payload, timestamp_bytes, generate, prefix}
use jack_service.World.{Env, World, Event, now, draw}
use text.Mathlib.TextLemmas.{append_cancel_left}
use jack_service.JobId.Base62.{encode_base62}
use jack_service.JobId.Division.{IsByte}
use jack_service.JobId.RoundTrip.{decode-encode_base62}
use jack_service.Common.Text.{chars}
use jack_service.JobId.RoundTrip.{decode_base62}

-- What the code relies on of crypto/sha256: a sum has 32 bytes.
pub record IsSum256 (sha256 : List ℕ → List ℕ) : Type 0 where
  pub as_long : (bytes : List ℕ) → length (sha256 bytes) ≡ 32
  pub bytes : (bytes : List ℕ) → All IsByte (sha256 bytes)

byte_shifted-IsByte : (n : ℤ) (k : ℕ) → IsByte (byte_shifted n k)
unfolding byte_shifted
byte_shifted-IsByte (pos n) k = omega arith
byte_shifted-IsByte (negsuc n) k = omega arith

timestamp_bytes-IsByte : (ms : ℤ) → All IsByte (timestamp_bytes ms)
unfolding timestamp_bytes
timestamp_bytes-IsByte ms =
    let b = byte_shifted-IsByte ms in (b 40, (b 32, (b 24, (b 16, (b 8, (b 0, tt))))))

-- The value of the six bytes.
pub timestamp_low :
    (n m : ℕ) → timestamp_bytes (pos n) ≡ timestamp_bytes (pos m) → n % 2 ^ 48 ≡ m % 2 ^ 48
unfolding timestamp_bytes byte_shifted
timestamp_low n m h =
    let (a, h₁) = ∷-injective h in
    let (b, h₂) = ∷-injective h₁ in
    let (c, h₃) = ∷-injective h₂ in
    let (d, h₄) = ∷-injective h₃ in
    let (e, h₅) = ∷-injective h₄ in let (f, _) = ∷-injective h₅ in omega (arith, a, b, c, d, e, f)

-- What the code relies on of crypto/rand: it fills the slice with bytes.
pub record IsRandom (env : Env) : Type 0 where
  pub as_long : (history : List Event) (n : ℕ) → length (env.entropy history n) ≡ n
  pub bytes : (history : List Event) (n : ℕ) → All IsByte (env.entropy history n)

module _ (sha256 : List ℕ → List ℕ) (sum : IsSum256 sha256) where
  hash_length : (bytes : List ℕ) → length (take 4 (sha256 bytes)) ≡ 4
  hash_length bytes = length-take_of_lt 4 (sha256 bytes) (omega (arith, sum.as_long bytes))

  module _ (time : Instant) (app job : String) (random : List ℕ) (four : length random ≡ 4) where
    length-fields : length (fields sha256 time app job random) ≡ 19
    unfolding fields timestamp_bytes
    length-fields = omega (
      arith,
      length-append (take 4 (sha256 (bytes_of app))) (take 4 (sha256 (bytes_of job)) ++ random),
      length-append (take 4 (sha256 (bytes_of job))) random,
      hash_length (bytes_of app),
      hash_length (bytes_of job),
    )

    pub length-payload : length (payload sha256 time app job random) ≡ 21
    unfolding payload
    length-payload =
        length-append (fields sha256 time app job random) _ ∙ omega (arith, length-fields)

    fields-IsByte : All IsByte random → All IsByte (fields sha256 time app job random)
    unfolding fields
    fields-IsByte h =
        let hash =
          λ (t : String). All-take IsByte 4 (sha256 (bytes_of t)) (sum.bytes (bytes_of t)) in
        (
          omega arith,
          All-append IsByte (timestamp_bytes (unix_milli time)) _
              (timestamp_bytes-IsByte (unix_milli time))
              (All-append IsByte (take 4 (sha256 (bytes_of app))) _ (hash app)
                (All-append IsByte (take 4 (sha256 (bytes_of job))) _ (hash job) h)),
        )

    -- Every element is a byte.
    pub payload-IsByte : All IsByte random → All IsByte (payload sha256 time app job random)
    unfolding payload
    payload-IsByte h =
        All-append IsByte (fields sha256 time app job random) _ (fields-IsByte h) (omega arith)

  fields_inj :
      (t t' : Instant) (app app' job job' : String) (r r' : List ℕ)
      → fields sha256 t app job r ≡ fields sha256 t' app' job' r'
      → (timestamp_bytes (unix_milli t) ≡ timestamp_bytes (unix_milli t'))
        × (take 4 (sha256 (bytes_of app)) ≡ take 4 (sha256 (bytes_of app')))
        × (take 4 (sha256 (bytes_of job)) ≡ take 4 (sha256 (bytes_of job')))
        × (r ≡ r')
  unfolding fields
  fields_inj t t' app app' job job' r r' h =
      let (times, h₁) =
        append_inj (timestamp_bytes (unix_milli t)) (timestamp_bytes (unix_milli t')) refl
          (∷-injective h).1 in
      let (apps, h₂) =
        append_inj _ _ (hash_length (bytes_of app) ∙ sym (hash_length (bytes_of app'))) h₁ in
      let (jobs, h₃) =
        append_inj _ _ (hash_length (bytes_of job) ∙ sym (hash_length (bytes_of job'))) h₂ in
      (times, apps, jobs, h₃)

  payload_inj :
      (t t' : Instant) (app app' job job' : String) (r r' : List ℕ)
      → length r ≡ 4
      → length r' ≡ 4
      → payload sha256 t app job r ≡ payload sha256 t' app' job' r'
      → fields sha256 t app job r ≡ fields sha256 t' app' job' r'
  unfolding payload
  payload_inj t t' app app' job job' r r' n n' h =
      (append_inj (fields sha256 t app job r) (fields sha256 t' app' job' r')
        (length-fields t app job r n ∙ sym (length-fields t' app' job' r' n')) h).0

  encode_inj :
      (p p' : List ℕ)
      → length p ≡ length p'
      → All IsByte p
      → All IsByte p'
      → encode_base62 p ≡ encode_base62 p'
      → p ≡ p'
  encode_inj p p' n h h' e = digits_value-injective 256 p p' n h h' (
      sym (decode-encode_base62 p h)
      ∙ ap (λ (s : String). decode_base62 (chars s)) e
      ∙ decode-encode_base62 p' h')

  -- If a SHA-256 sum has 32 bytes and crypto/rand fills its slice, two job IDs are equal only if they were made in one millisecond (up to the low 48 bits), from
  -- producers and job types whose hashes begin with the same four bytes, with the same random bytes.
  pub generate-injective :
      (env : Env) (random : IsRandom env) (app app' job job' : String) (w w' : World)
      → (generate sha256 env app job w).0 ≡ (generate sha256 env app' job' w').0
      → (timestamp_bytes (unix_milli (now env w).0) ≡ timestamp_bytes (unix_milli (now env w').0))
        × (take 4 (sha256 (bytes_of app)) ≡ take 4 (sha256 (bytes_of app')))
        × (take 4 (sha256 (bytes_of job)) ≡ take 4 (sha256 (bytes_of job')))
        × ((draw env 4 (now env w).1).0 ≡ (draw env 4 (now env w').1).0)
  unfolding generate
  generate-injective env random app app' job job' w w' h =
      let (t, u) = now env w in
      let (t', u') = now env w' in
      let r = env.entropy u.history 4 in
      let r' = env.entropy u'.history 4 in
      let n = random.as_long u.history 4 in
      let n' = random.as_long u'.history 4 in
      let same =
        encode_inj _ _ (length-payload t app job r n ∙ sym (length-payload t' app' job' r' n'))
          (payload-IsByte t app job r n (random.bytes u.history 4))
          (payload-IsByte t' app' job' r' n' (random.bytes u'.history 4))
          (append_cancel_left prefix _ _ h) in
      fields_inj t t' app app' job job' r r' (payload_inj t t' app app' job job' r r' n n' same)
