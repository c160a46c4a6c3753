-- ===== src/Api/Admin/Ids.antt =====
-- The producer IDs that `generateProducerID` (internal/api/admin_server.go) makes.
use Prim.Native.String.{String}
use text.Mathlib.TextLemmas.{nil-append, cons-append}
use jack_service.Common.{ℕ, zero, suc, ◌/◌, ◌%◌, ◌≢◌, List, [], ◌∷◌, All, arith, get_or}
use jack_service.Common.Text.{Char, code, chars, of_chars, ◌+++◌}
use jack_service.World.{World, Env, draw}
use jack_service.Storage.Keys.{NoColon}
use jack_service.Api.Admin.{hex_alphabet, hex_char, hex_encode, generate_producer_id}

NoColon-append : (s t : String) → NoColon s → NoColon t → NoColon (s +++ t)
NoColon-append String.[] t a b = rw (nil-append t) b
NoColon-append (String.◌∷◌ c s) t (x, a) b = rw (cons-append c s t) (x, NoColon-append s t a b)

abbrev IsPlain : Char → Type 0
IsPlain c = code c ≢ b':'

get_or-IsPlain :
    (cs : List Char) (n : ℕ) (d : Char) → All IsPlain cs → IsPlain d → IsPlain (get_or cs n d)
get_or-IsPlain [] n d a p = p
get_or-IsPlain (c ∷ cs) zero d (q, a) p = q
get_or-IsPlain (c ∷ cs) (suc n) d (q, a) p = get_or-IsPlain cs n d a p

hex_alphabet-IsPlain : All IsPlain (chars hex_alphabet)
hex_alphabet-IsPlain = (
  omega arith,
  (
    omega arith,
    (
      omega arith,
      (
        omega arith,
        (
          omega arith,
          (
            omega arith,
            (
              omega arith,
              (
                omega arith,
                (
                  omega arith,
                  (
                    omega arith,
                    (
                      omega arith,
                      (omega arith, (omega arith, (omega arith, (omega arith, (omega arith, tt))))),
                    ),
                  ),
                ),
              ),
            ),
          ),
        ),
      ),
    ),
  ),
)

hex_char-IsPlain : (d : ℕ) → IsPlain (hex_char d)
unfolding hex_char
hex_char-IsPlain d = get_or-IsPlain (chars hex_alphabet) d "0" hex_alphabet-IsPlain (omega arith)

hex_encode-NoColon : (bs : List ℕ) → NoColon (of_chars (hex_encode bs))
unfolding hex_encode
hex_encode-NoColon [] = tt
hex_encode-NoColon (b ∷ bs) =
    (hex_char-IsPlain (b / 16), (hex_char-IsPlain (b % 16), hex_encode-NoColon bs))

-- A generated producer ID holds no colon, so it takes part in no two keys of job types.
pub generate_producer_id-NoColon : (env : Env) (w : World) → NoColon (generate_producer_id env w).0
unfolding generate_producer_id
generate_producer_id-NoColon env w =
    NoColon-append "prod_" _ prod-NoColon (hex_encode-NoColon (draw env 4 w).0)
  where
    prod-NoColon : NoColon "prod_"
    prod-NoColon = (omega arith, (omega arith, (omega arith, (omega arith, (omega arith, tt)))))
