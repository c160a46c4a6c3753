-- ===== src/Storage/Keys.antt =====
-- The keys of job types (`jobTypeKey` of internal/storage/storage.go).
use Prim.Native.String.{String, [], ◌∷◌}
use text.Mathlib.TextLemmas.{append_cancel_left, append_assoc, nil-append, cons-append}
use jack_service.Common.{◌≡◌, ◌≢◌, refl, sym, ap, ◌∙◌}
use jack_service.Common.Text.{Char, code, ◌+++◌}
use jack_service.Storage.{job_type_key}

abbrev pub NoColon : String → Type 0
NoColon [] = Unit
NoColon (c ∷ s) = (code c ≢ b':') × NoColon s

∷-injective : {c d : Char} {s t : String} → c ∷ s ≡ d ∷ t → (c ≡ d) × (s ≡ t)
∷-injective h = (cc, cc)

first_char : {c d : Char} (s t : String) → c ∷ s ≡ d ∷ t → c ≡ d
first_char s t h = cc

abbrev colon : Char
colon = ":"

colon_append : (s : String) → ":" +++ s ≡ colon ∷ s
colon_append s = cons-append colon "" s ∙ ap (λ t. colon ∷ t) (nil-append s)

split_at_colon :
    (a b n m : String)
    → NoColon a
    → NoColon b
    → a +++ (":" +++ n) ≡ b +++ (":" +++ m)
    → (a ≡ b) × (n ≡ m)
split_at_colon [] [] n m ha hb h =
    (refl, append_cancel_left ":" n m (rw (nil-append (":" +++ n), nil-append (":" +++ m)) at h))
split_at_colon [] (c ∷ b) n m ha hb h =
    let e = sym (colon_append n) ∙ sym (nil-append (":" +++ n)) ∙ h ∙ cons-append c b (":" +++ m) in
    absurd (hb.0 (ap code (sym (first_char _ _ e))))
split_at_colon (c ∷ a) [] n m ha hb h =
    let e = sym (cons-append c a (":" +++ n)) ∙ h ∙ nil-append (":" +++ m) ∙ colon_append m in
    absurd (ha.0 (ap code (first_char _ _ e)))
split_at_colon (c ∷ a) (d ∷ b) n m ha hb h =
    let (same, rest) =
      ∷-injective (rw (cons-append c a (":" +++ n), cons-append d b (":" +++ m)) at h) in
    let (same_a, same_n) = split_at_colon a b n m ha.1 hb.1 rest in (cc (same, same_a), same_n)

-- A key determines the producer and the name, if no producer ID holds a colon.
pub job_type_key-injective :
    (a b n m : String)
    → NoColon a
    → NoColon b
    → job_type_key a n ≡ job_type_key b m
    → (a ≡ b) × (n ≡ m)
unfolding job_type_key
job_type_key-injective = split_at_colon

-- With a colon in the producer ID two pairs share a key: the producer `a` with the name `b:c`, and the
-- producer `a:b` with the name `c`.
pub job_type_key_collision :
    (a b c : String) → job_type_key (a +++ (":" +++ b)) c ≡ job_type_key a (b +++ (":" +++ c))
unfolding job_type_key
job_type_key_collision a b c =
    rw (append_assoc a (":" +++ b) (":" +++ c), append_assoc ":" b (":" +++ c))
