-- ===== src/Examples/Ids.antt =====
-- The theorems on job IDs at concrete inputs.
use jack_service.Common.{ℕ, ◌≡◌, refl, true, List, [], ◌∷◌, ◌⊎◌, All, arith, length, take}
use jack_service.Common.Text.{chars}
use jack_service.World.{now, draw}
use jack_service.Go.{unix_milli, bytes_of}
use jack_service.JobId.{timestamp_bytes, generate}
use jack_service.JobId.Base62.{is_zero, divide_by_62, digits_loop, encode_base62}
use jack_service.JobId.Division.{IsByte, be_value, divide_by_62-lem}
use jack_service.JobId.RoundTrip.{decode_base62, decode-encode_base62, digits_loop-is_zero}
use jack_service.JobId.Fields.{generate-injective}
use jack_service.JobId.Shape.{IsTaskChar, generate_shape}
use jack_service.Examples.{env, sha256, nothing_yet, sha256-IsSum256, env-IsRandom}

abbrev three_bytes : List ℕ
three_bytes = 0 ∷ 1 ∷ 255 ∷ []

three_bytes-IsByte : All IsByte three_bytes
three_bytes-IsByte = (omega arith, (omega arith, (omega arith, tt)))

decode-encode_base62_example :
    decode_base62 (chars (encode_base62 three_bytes)) ≡ be_value three_bytes
decode-encode_base62_example = decode-encode_base62 three_bytes three_bytes-IsByte

digits_loop-is_zero_example : is_zero (digits_loop 6 three_bytes []).0 ≡ true
digits_loop-is_zero_example = digits_loop-is_zero three_bytes three_bytes-IsByte

divide_by_62-lem_example :
    (be_value (divide_by_62 three_bytes).0 ≡ 8)
    × ((divide_by_62 three_bytes).1 ≡ 15)
    × (length (divide_by_62 three_bytes).0 ≡ 3)
    × All IsByte (divide_by_62 three_bytes).0
divide_by_62-lem_example = divide_by_62-lem three_bytes three_bytes-IsByte

generate-injective_example :
    (timestamp_bytes (unix_milli (now env nothing_yet).0)
      ≡ timestamp_bytes (unix_milli (now env nothing_yet).0))
    × (take 4 (sha256 (bytes_of "a")) ≡ take 4 (sha256 (bytes_of "a")))
    × (take 4 (sha256 (bytes_of "b")) ≡ take 4 (sha256 (bytes_of "b")))
    × ((draw env 4 (now env nothing_yet).1).0 ≡ (draw env 4 (now env nothing_yet).1).0)
generate-injective_example =
    generate-injective sha256 sha256-IsSum256 env env-IsRandom "a" "a" "b" "b" nothing_yet
      nothing_yet refl

generate_shape_example :
    ((length (chars (generate sha256 env "a" "b" nothing_yet).0) ≡ 32)
      ⊎ (length (chars (generate sha256 env "a" "b" nothing_yet).0) ≡ 33))
    × All IsTaskChar (chars (generate sha256 env "a" "b" nothing_yet).0)
generate_shape_example = generate_shape sha256 sha256-IsSum256 env env-IsRandom "a" "b" nothing_yet
