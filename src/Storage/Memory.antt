-- ===== src/Storage/Memory.antt =====
-- internal/storage/memory.go: the store that keeps its maps in memory alone.
pub mod Laws
pub mod Lookup
pub mod Listing
pub mod Kept
use jack_service.Common.{String, List, Option, none, some, Result, ok, err}
use jack_service.Common.Map.{lookup, insert}
use jack_service.Go.{Error}
use jack_service.Proto.{Producer, JobType}
use jack_service.World.{World, M, ◌>>=◌, pure, Env, now}
use jack_service.Storage.{
  job_type_key, Store, Services, stamp_producer, stamp_job_type, producer_exists, producer_missing,
  job_type_exists, job_type_missing, of_producer,
}

-- s.producers[id] = p
unfoldable pub put_producer : Producer → M (Unit {0})
put_producer p w = (tt, record w { producers = insert p.producer_id p w.producers })

unfoldable pub put_job_type : JobType → M (Unit {0})
unfolding job_type_key
put_job_type jt w =
    (tt, record w { job_types = insert (job_type_key jt.producer_id jt.name) jt w.job_types })

module _ (env : Env) (services : Services) where
  open services use {timestamp_of, range_producers, range_job_types}

  unfoldable pub create_producer : Producer → M (Option Error × Producer)
  unfolding now put_producer
  create_producer p w = elim (lookup p.producer_id w.producers) [
    | some _ ↦ ((some (producer_exists p.producer_id), p), w)
    | none ↦
        let (t, w') = now env w in
        let p' = stamp_producer (timestamp_of t) p in ((none, p'), (put_producer p' w').1)
  ]

  unfoldable pub get_producer : String → M (Result Error Producer)
  get_producer id w = elim (lookup id w.producers) [
    | none ↦ (err (producer_missing id), w)
    | some p ↦ (ok p, w)
  ]

  unfoldable pub list_producers : M (Result Error (List Producer))
  list_producers w = (ok (range_producers w.producers), w)

  unfoldable pub create_job_type : JobType → M (Option Error × JobType)
  unfolding now put_job_type job_type_key
  create_job_type jt w = elim (lookup jt.producer_id w.producers) [
    | none ↦ ((some (producer_missing jt.producer_id), jt), w)
    | some _ ↦ elim (lookup (job_type_key jt.producer_id jt.name) w.job_types) [
      | some _ ↦ ((some (job_type_exists jt.producer_id jt.name), jt), w)
      | none ↦
          let (t, w') = now env w in
          let jt' = stamp_job_type (timestamp_of t) jt in ((none, jt'), (put_job_type jt' w').1)
    ]
  ]

  unfoldable pub get_job_type : String → String → M (Result Error JobType)
  unfolding job_type_key
  get_job_type producer_id name w = elim (lookup (job_type_key producer_id name) w.job_types) [
    | none ↦ (err (job_type_missing producer_id name), w)
    | some jt ↦ (ok jt, w)
  ]

  unfoldable pub list_job_types : String → M (Result Error (List JobType))
  unfolding of_producer
  list_job_types producer_id w = (ok (of_producer producer_id (range_job_types w.job_types)), w)

  abbrev pub memory_store : Store
  memory_store = record {
    create_producer = create_producer;
    get_producer = get_producer;
    list_producers = list_producers;
    create_job_type = create_job_type;
    get_job_type = get_job_type;
    list_job_types = list_job_types;
    close = pure none;
  }
