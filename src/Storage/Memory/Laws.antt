-- ===== src/Storage/Memory/Laws.antt =====
-- The operations of the memory store (internal/storage/memory.go) on every branch.
use jack_service.Common.{◌≢◌, none, inl, inr, Option-cases, arith}
use jack_service.Common.Map.{lookup, lookup-insert}
use jack_service.Common.Map.Keys.{insert-NodupKeys}
use jack_service.Common.Text.{eq_iff}
use jack_service.Proto.{Producer, JobType}
use jack_service.World.{World, Env, now}
use jack_service.Storage.{job_type_key, Services}
use jack_service.Storage.Laws.{IsRegistry}
use jack_service.Storage.Memory.{create_producer, create_job_type, put_producer, put_job_type}

module _ (env : Env) (services : Services) where
  open services use {timestamp_of}

  pub put_producer-IsRegistry :
      (p : Producer) (w : World) → IsRegistry w → IsRegistry (put_producer p w).1
  unfolding put_producer
  put_producer-IsRegistry p w r = record {
    producers_once = insert-NodupKeys p.producer_id p w.producers r.producers_once;
    job_types_once = r.job_types_once;
    producer_keyed = λ k q h. ground (
      arith,
      lookup-insert p.producer_id k p w.producers,
      eq_iff p.producer_id k,
      r.producer_keyed k q,
    );
    job_type_keyed = r.job_type_keyed;
    job_type_owned = λ k jt h e.
        ground (
          arith,
          lookup-insert p.producer_id jt.producer_id p w.producers,
          r.job_type_owned k jt h,
        );
  }

  pub put_job_type-IsRegistry :
      (jt : JobType) (w : World)
      → lookup jt.producer_id w.producers ≢ none
      → IsRegistry w
      → IsRegistry (put_job_type jt w).1
  unfolding put_job_type
  put_job_type-IsRegistry jt w owned r = record {
    producers_once = r.producers_once;
    job_types_once =
        insert-NodupKeys (job_type_key jt.producer_id jt.name) jt w.job_types r.job_types_once;
    producer_keyed = r.producer_keyed;
    job_type_keyed = λ k j h.
        let key = job_type_key jt.producer_id jt.name in
        ground (arith, lookup-insert key k jt w.job_types, eq_iff key k, r.job_type_keyed k j);
    job_type_owned = λ k j h e.
        let key = job_type_key jt.producer_id jt.name in
        ground (arith, lookup-insert key k jt w.job_types, r.job_type_owned k j);
  }

  -- Creating a producer in the memory store keeps the maps well formed, whether it succeeds or not.
  pub create_producer-IsRegistry :
      (p : Producer) (w : World) → IsRegistry w → IsRegistry (create_producer env services p w).1
  unfolding create_producer
  create_producer-IsRegistry p w r = elim (Option-cases (lookup p.producer_id w.producers)) [
    | inl new ↦ rw (new, create_producer) (put_producer-IsRegistry _ (now env w).1 r)
    | inr (q, old) ↦ rw (old, create_producer) r
  ]

  -- Creating a job type in the memory store keeps the maps well formed, whether it succeeds or not.
  pub create_job_type-IsRegistry :
      (jt : JobType) (w : World) → IsRegistry w → IsRegistry (create_job_type env services jt w).1
  unfolding create_job_type
  create_job_type-IsRegistry jt w r = elim (Option-cases (lookup jt.producer_id w.producers)) [
    | inl missing ↦ rw (missing, create_job_type) r
    | inr (p, there) ↦
        elim (Option-cases (lookup (job_type_key jt.producer_id jt.name) w.job_types)) [
          | inl new ↦
              rw (there, new, create_job_type) (put_job_type-IsRegistry _ (now env w).1 (λ e. cc) r)
          | inr (old, found) ↦ rw (there, found, create_job_type) r
        ]
  ]
