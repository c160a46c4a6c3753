-- ===== src/Go/Utf8.antt =====
-- []byte(s): the UTF-8 bytes of a text.
use jack_service.Common.{ℕ, ◌+◌, ◌/◌, ◌%◌, String, List, [], ◌∷◌, ◌++◌, ltb, if◌then◌else◌}
use jack_service.Common.Text.{Char, code, chars}

abbrev continuation : ℕ → ℕ
continuation c = 128 + c % 64

utf8 : ℕ → List ℕ
utf8 c =
    if ltb c 0x80
    then c ∷ []
    else if ltb c 0x800
    then (192 + c / 64) ∷ continuation c ∷ []
    else if ltb c 0x10000
    then (224 + c / 4096) ∷ continuation (c / 64) ∷ continuation c ∷ []
    else (240 + c / 262144) ∷ continuation (c / 4096) ∷ continuation (c / 64) ∷ continuation c ∷ []

bytes_of_chars : List Char → List ℕ
bytes_of_chars [] = []
bytes_of_chars (c ∷ cs) = utf8 (code c) ++ bytes_of_chars cs

unfoldable pub bytes_of : String → List ℕ
unfolding utf8 bytes_of_chars
bytes_of s = bytes_of_chars (chars s)
