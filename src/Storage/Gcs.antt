-- ===== src/Storage/Gcs.antt =====
-- internal/storage/gcs.go: the store that also writes each map to an object of Cloud Storage.
-- The objects of the bucket are those of Storage.Bucket.
pub mod Save
pub mod Created
pub mod Kept
pub mod Stored
pub mod Saved
pub mod Durable
pub mod Start
pub mod Restart
use jack_service.Common.{ℕ, String, List, [], Option, none, some, Result, ok, err}
use jack_service.Common.Map.{Map, lookup, delete, index_by}
use jack_service.Common.Text.{◌+++◌}
use jack_service.Go.{Error, wrapped}
use jack_service.Proto.{Producer, JobType}
use jack_service.World.{
  World, M, ◌>>=◌, pure, Env, object_written, now, emit, to_storage, close_connection,
}
use jack_service.Storage.{
  job_type_key, Store, Services, stamp_producer, stamp_job_type, producer_exists, producer_missing,
  job_type_exists, job_type_missing, of_producer,
}
use jack_service.Storage.Memory.{put_producer, put_job_type}
use jack_service.Storage.Bucket.{
  Bucket, producers_file, job_types_file, written_error, object_path, load_producers,
  load_job_types,
}

-- The loops of `load` that fill the maps.
unfoldable pub index_producers : List Producer → Map Producer → Map Producer
unfolding index_by
index_producers = index_by (λ p. p.producer_id)

unfoldable pub index_job_types : List JobType → Map JobType → Map JobType
unfolding job_type_key index_by
index_job_types = index_by (λ jt. job_type_key jt.producer_id jt.name)

module _ (env : Env) (services : Services) (bucket : Bucket) (store_prefix : String) where
  open services use {timestamp_of, range_producers, range_job_types}

  unfoldable pub write_object : (what path : String) → List ℕ → M (Option Error)
  unfolding emit
  write_object what path bytes w =
      let outcome = written_error what (bucket.write w.history path bytes) in
      (outcome, (emit (object_written path bytes outcome) w).1)

  unfoldable pub save_producers : M (Option Error)
  unfolding write_object object_path
  save_producers w = elim (bucket.marshal_producers (range_producers w.producers)) [
    | err e ↦ (some (wrapped "failed to marshal producers: " e ""), w)
    | ok bytes ↦ write_object "producers" (object_path store_prefix producers_file) bytes w
  ]

  unfoldable pub save_job_types : M (Option Error)
  unfolding write_object object_path
  save_job_types w = elim (bucket.marshal_job_types (range_job_types w.job_types)) [
    | err e ↦ (some (wrapped "failed to marshal job types: " e ""), w)
    | ok bytes ↦ write_object "job types" (object_path store_prefix job_types_file) bytes w
  ]

  -- delete(s.producers, id) where the save has failed
  unfoldable pub settle_producer : Producer → Option Error → M (Option Error × Producer)
  settle_producer p none w = ((none, p), w)
  settle_producer p (some e) w =
      ((some e, p), record w { producers = delete p.producer_id w.producers })

  unfoldable pub create_producer : Producer → M (Option Error × Producer)
  unfolding now put_producer save_producers settle_producer
  create_producer p w = elim (lookup p.producer_id w.producers) [
    | some _ ↦ ((some (producer_exists p.producer_id), p), w)
    | none ↦
        let (t, w₁) = now env w in
        let p' = stamp_producer (timestamp_of t) p in
        let (outcome, w₂) = save_producers (put_producer p' w₁).1 in settle_producer p' outcome w₂
  ]

  unfoldable pub settle_job_type : JobType → Option Error → M (Option Error × JobType)
  unfolding job_type_key
  settle_job_type jt none w = ((none, jt), w)
  settle_job_type jt (some e) w = (
    (some e, jt),
    record w { job_types = delete (job_type_key jt.producer_id jt.name) w.job_types },
  )

  unfoldable pub create_job_type : JobType → M (Option Error × JobType)
  unfolding now put_job_type job_type_key save_job_types settle_job_type
  create_job_type jt w = elim (lookup jt.producer_id w.producers) [
    | none ↦ ((some (producer_missing jt.producer_id), jt), w)
    | some _ ↦ elim (lookup (job_type_key jt.producer_id jt.name) w.job_types) [
      | some _ ↦ ((some (job_type_exists jt.producer_id jt.name), jt), w)
      | none ↦
          let (t, w₁) = now env w in
          let jt' = stamp_job_type (timestamp_of t) jt in
          let (outcome, w₂) = save_job_types (put_job_type jt' w₁).1 in
          settle_job_type jt' outcome w₂
    ]
  ]

  unfoldable pub get_producer : String → M (Result Error Producer)
  get_producer id w = elim (lookup id w.producers) [
    | none ↦ (err (producer_missing id), w)
    | some p ↦ (ok p, w)
  ]

  unfoldable pub list_producers : M (Result Error (List Producer))
  list_producers w = (ok (range_producers w.producers), w)

  unfoldable pub get_job_type : String → String → M (Result Error JobType)
  unfolding job_type_key
  get_job_type producer_id name w = elim (lookup (job_type_key producer_id name) w.job_types) [
    | none ↦ (err (job_type_missing producer_id name), w)
    | some jt ↦ (ok jt, w)
  ]

  unfoldable pub list_job_types : String → M (Result Error (List JobType))
  unfolding of_producer
  list_job_types producer_id w = (ok (of_producer producer_id (range_job_types w.job_types)), w)

  -- `load`: both objects are read before a map is replaced.
  unfoldable pub load : M (Option Error)
  unfolding load_producers load_job_types index_producers index_job_types
  load w = elim (load_producers bucket store_prefix w.history) [
    | err e ↦ (some e, w)
    | ok ps ↦ elim (load_job_types bucket store_prefix w.history) [
      | err e ↦ (some e, w)
      | ok jts ↦
          (none, record w { producers = index_producers ps []; job_types = index_job_types jts [] })
    ]
  ]

  -- Close
  unfoldable pub close : M (Option Error)
  unfolding close_connection
  close = close_connection to_storage bucket.close

  abbrev pub gcs_store : Store
  gcs_store = record {
    create_producer = create_producer;
    get_producer = get_producer;
    list_producers = list_producers;
    create_job_type = create_job_type;
    get_job_type = get_job_type;
    list_job_types = list_job_types;
    close = close;
  }

  -- NewGCSStore; `client` is the error of storage.NewClient.
  unfoldable pub new_gcs_store : (client : Option Error) → M (Result Error Store)
  unfolding load close
  new_gcs_store (some e) w = (err (wrapped "failed to create GCS client: " e ""), w)
  new_gcs_store none w =
      let (outcome, w') = load (record w { producers = []; job_types = [] }) in
      elim outcome [
        | some e ↦ (err (wrapped "failed to load data: " e ""), (close w').1)
        | none ↦ (ok gcs_store, w')
      ]
