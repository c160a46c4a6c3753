-- ===== src/Go/Instants.antt =====
-- time.Time as nanoseconds since the Unix epoch, time.Duration as nanoseconds.
use jack_service.Common.{ℕ, ◌-◌, ◌/◌, ◌%◌, ◌^◌, ltb, if◌then◌else◌}
use jack_service.Common.Int.{ℤ, pos, negsuc, ◌-ℤ◌, ltb_ℤ}

abbrev pub Instant : Type 0
Instant = ℤ

abbrev pub Duration : Type 0
Duration = ℤ

abbrev pub max_duration : Duration
max_duration = pos (2 ^ 63 - 1)

abbrev pub min_duration : Duration
min_duration = negsuc (2 ^ 63 - 1)

-- t.Sub(u), which saturates.
unfoldable pub sub_time : Instant → Instant → Duration
unfolding ◌-ℤ◌
sub_time t u =
    if ltb_ℤ max_duration (t -ℤ u)
    then max_duration
    else if ltb_ℤ (t -ℤ u) min_duration
    then min_duration
    else t -ℤ u

-- t.UnixMilli(): rounds towards the past.
unfoldable pub unix_milli : Instant → ℤ
unix_milli (pos n) = pos (n / 1000000)
unix_milli (negsuc n) = negsuc (n / 1000000)

-- byte(n >> k), with the sign bit shifted in.
unfoldable pub byte_shifted : ℤ → ℕ → ℕ
byte_shifted (pos n) k = n / 2 ^ k % 256
byte_shifted (negsuc n) k = 255 - n / 2 ^ k % 256

-- int32(n) of a number that is not negative.
unfoldable pub to_int32 : ℕ → ℤ
to_int32 n =
    if ltb (n % 2 ^ 32) (2 ^ 31) then pos (n % 2 ^ 32) else negsuc (2 ^ 32 - n % 2 ^ 32 - 1)
