-- ===== src/Storage/Bucket.antt =====
-- internal/storage/gcs.go: the two objects of the bucket and how they are read.
-- What the bucket answers and the JSON text (protojson) are parameters.
use jack_service.Common.{ℕ, String, List, [], Option, none, some, Result, ok, err, if◌then◌else◌}
use jack_service.Common.Text.{◌==◌, ◌+++◌}
use jack_service.Go.{Error, wrapped}
use jack_service.Proto.{Producer, JobType}
use jack_service.World.{Event}

abbrev pub producers_file : String
producers_file = "producers.json"

abbrev pub job_types_file : String
job_types_file = "job_types.json"

-- How the write of an object ends: in `Write`, in `Close`, or well.
pub data Written : Type 0 where
  write_failed close_failed : Error → Written
  written : Written

-- How the read of an object ends: in `NewReader`, in `ReadAll`, or with its bytes.
pub data Fetched : Type 0 where
  not_exist : Fetched
  open_failed read_failed : Error → Fetched
  fetched : List ℕ → Fetched

pub record Bucket : Type 0 where
  pub write : List Event → String → List ℕ → Written
  pub read : List Event → String → Fetched
  pub close : List Event → Option Error
  pub marshal_producers : List Producer → Result Error (List ℕ)
  pub marshal_job_types : List JobType → Result Error (List ℕ)
  pub unmarshal_producers : List ℕ → Result Error (List Producer)
  pub unmarshal_job_types : List ℕ → Result Error (List JobType)

unfoldable pub object_path : (store_prefix name : String) → String
object_path store_prefix name = if store_prefix == "" then name else store_prefix +++ ("/" +++ name)

abbrev pub written_error : String → Written → Option Error
written_error what (write_failed e) = some (wrapped ("failed to write " +++ (what +++ ": ")) e "")
written_error what (close_failed e) =
    some (wrapped ("failed to close " +++ (what +++ " writer: ")) e "")
written_error what written = none

module _ (bucket : Bucket) (store_prefix : String) where
  unfoldable pub load_producers : List Event → Result Error (List Producer)
  unfolding object_path
  load_producers history = elim (bucket.read history (object_path store_prefix producers_file)) [
    | not_exist ↦ ok []
    | open_failed e ↦ err (wrapped "failed to read producers: " e "")
    | read_failed e ↦ err (wrapped "failed to read producers data: " e "")
    | fetched bytes ↦ elim (bucket.unmarshal_producers bytes) [
      | err e ↦ err (wrapped "failed to parse producers: " e "")
      | ok ps ↦ ok ps
    ]
  ]

  unfoldable pub load_job_types : List Event → Result Error (List JobType)
  unfolding object_path
  load_job_types history = elim (bucket.read history (object_path store_prefix job_types_file)) [
    | not_exist ↦ ok []
    | open_failed e ↦ err (wrapped "failed to read job types: " e "")
    | read_failed e ↦ err (wrapped "failed to read job types data: " e "")
    | fetched bytes ↦ elim (bucket.unmarshal_job_types bytes) [
      | err e ↦ err (wrapped "failed to parse job types: " e "")
      | ok jts ↦ ok jts
    ]
  ]
