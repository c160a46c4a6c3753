-- ===== src/JobId.antt =====
-- internal/jobid/jobid.go: job IDs. A byte is a number below 256, and a byte slice a list of them.
-- SHA-256 is a parameter.
pub mod Base62
pub mod Division
pub mod Digits
pub mod RoundTrip
pub mod Checksum
pub mod Fields
pub mod Shape
use jack_service.Common.{ℕ, ◌/◌, ◌%◌, String, List, [], ◌∷◌, ◌++◌, take}
use jack_service.Common.Int.{ℤ}
use jack_service.Common.Text.{◌+++◌}
use jack_service.Go.{Instant, unix_milli, byte_shifted, bytes_of}
use jack_service.World.{M, ◌>>=◌, pure, Env, now, draw}
use Base62.{encode_base62}
use Checksum.{crc16}

abbrev pub prefix : String
prefix = "pjob_"

abbrev pub version : ℕ
version = 1

-- payload[1] to payload[6]
unfoldable pub timestamp_bytes : ℤ → List ℕ
unfolding byte_shifted
timestamp_bytes ms =
    byte_shifted ms 40
    ∷ byte_shifted ms 32
    ∷ byte_shifted ms 24
    ∷ byte_shifted ms 16
    ∷ byte_shifted ms 8
    ∷ byte_shifted ms 0
    ∷ []

module _ (sha256 : List ℕ → List ℕ) where
  -- payload[:19]
  unfoldable pub fields : Instant → String → String → List ℕ → List ℕ
  unfolding timestamp_bytes unix_milli bytes_of
  fields time app_id job_type random =
      version ∷ timestamp_bytes (unix_milli time)
      ++ (take 4 (sha256 (bytes_of app_id)) ++ (take 4 (sha256 (bytes_of job_type)) ++ random))

  -- The 21 bytes: the fields and the checksum, its high byte first.
  unfoldable pub payload : Instant → String → String → List ℕ → List ℕ
  unfolding fields
  payload time app_id job_type random =
      let head = fields time app_id job_type random in
      head ++ (crc16 head / 256 % 256) ∷ (crc16 head % 256) ∷ []

  unfoldable pub generate : Env → String → String → M String
  unfolding payload now draw
  generate env app_id job_type = do
    time ← now env
    random ← draw env 4
    pure (prefix +++ encode_base62 (payload time app_id job_type random))
