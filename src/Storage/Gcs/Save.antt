-- ===== src/Storage/Gcs/Save.antt =====
-- Creations in the store of internal/storage/gcs.go: the maps after a failure, and what is written to the
-- bucket.
use jack_service.Common.{
  ℕ, String, ◌≡◌, ◌≢◌, refl, ap, List, ◌∷◌, Option, none, some, ok, inl, inr, Option-cases,
  Result-cases,
}
use jack_service.Common.Map.{lookup, delete-insert}
use jack_service.Go.{Error}
use jack_service.Proto.{Producer, JobType}
use jack_service.World.{World, Env, Event, object_written, now}
use jack_service.Storage.{job_type_key, Services, stamp_producer, stamp_job_type}
use jack_service.Storage.Memory.{put_producer, put_job_type}
use jack_service.Storage.Bucket.{Bucket, object_path, producers_file, job_types_file}
use jack_service.Storage.Laws.{SameMaps}
use jack_service.Storage.Gcs.{
  create_producer, create_job_type, save_producers, save_job_types, settle_producer,
  settle_job_type,
}

module _ (env : Env) (services : Services) (bucket : Bucket) (store_prefix : String) where
  open services use {range_producers, range_job_types}

  -- The latest event is the successful write of the map's values to its object.
  abbrev pub ProducersWritten : World → Type 0
  ProducersWritten w =
      (bytes : List ℕ) × (earlier : List Event) × (bucket.marshal_producers
          (range_producers w.producers)
        ≡ ok bytes)
      × (w.history ≡ object_written (object_path store_prefix producers_file) bytes none ∷ earlier)

  abbrev pub JobTypesWritten : World → Type 0
  JobTypesWritten w =
      (bytes : List ℕ) × (earlier : List Event) × (bucket.marshal_job_types
          (range_job_types w.job_types)
        ≡ ok bytes)
      × (w.history ≡ object_written (object_path store_prefix job_types_file) bytes none ∷ earlier)

  pub save_producers-SameMaps :
      (w : World) → SameMaps w (save_producers env services bucket store_prefix w).1
  unfolding save_producers
  save_producers-SameMaps w =
      elim (Result-cases (bucket.marshal_producers (range_producers w.producers))) [
        | inl (bytes, e) ↦
            rw (e, save_producers) (record { same_producers = refl; same_job_types = refl })
        | inr (x, e) ↦
            rw (e, save_producers) (record { same_producers = refl; same_job_types = refl })
      ]

  pub save_producers-written :
      (w : World)
      → (save_producers env services bucket store_prefix w).0 ≡ none
      → ProducersWritten (save_producers env services bucket store_prefix w).1
  unfolding save_producers
  save_producers-written w h =
      elim (Result-cases (bucket.marshal_producers (range_producers w.producers))) [
        | inl (bytes, e) ↦
            let h' = rw (e, save_producers) at h in
            rw (e, save_producers)
              (
                bytes,
                w.history,
                e,
                ap
                    (λ (o : Option Error).
                      object_written (object_path store_prefix producers_file) bytes o ∷ w.history)
                    h',
              )
        | inr (x, e) ↦ let h' = rw (e, save_producers) at h in cc
      ]

  pub save_job_types-SameMaps :
      (w : World) → SameMaps w (save_job_types env services bucket store_prefix w).1
  unfolding save_job_types
  save_job_types-SameMaps w =
      elim (Result-cases (bucket.marshal_job_types (range_job_types w.job_types))) [
        | inl (bytes, e) ↦
            rw (e, save_job_types) (record { same_producers = refl; same_job_types = refl })
        | inr (x, e) ↦
            rw (e, save_job_types) (record { same_producers = refl; same_job_types = refl })
      ]

  pub save_job_types-written :
      (w : World)
      → (save_job_types env services bucket store_prefix w).0 ≡ none
      → JobTypesWritten (save_job_types env services bucket store_prefix w).1
  unfolding save_job_types
  save_job_types-written w h =
      elim (Result-cases (bucket.marshal_job_types (range_job_types w.job_types))) [
        | inl (bytes, e) ↦
            let h' = rw (e, save_job_types) at h in
            rw (e, save_job_types)
              (
                bytes,
                w.history,
                e,
                ap
                    (λ (o : Option Error).
                      object_written (object_path store_prefix job_types_file) bytes o ∷ w.history)
                    h',
              )
        | inr (x, e) ↦ let h' = rw (e, save_job_types) at h in cc
      ]

  pub settle_producer-failed :
      (p : Producer) (outcome : Option Error) (w w' : World)
      → lookup p.producer_id w.producers ≡ none
      → SameMaps (put_producer p w).1 w'
      → (settle_producer env services bucket store_prefix p outcome w').0.0 ≢ none
      → SameMaps w (settle_producer env services bucket store_prefix p outcome w').1
  unfolding settle_producer put_producer
  settle_producer-failed p none w w' new same failed = absurd (failed refl)
  settle_producer-failed p (some e) w w' new same failed = record {
    same_producers = rw same.same_producers (delete-insert p.producer_id p w.producers new);
    same_job_types = same.same_job_types;
  }

  pub settle_job_type-failed :
      (jt : JobType) (outcome : Option Error) (w w' : World)
      → lookup (job_type_key jt.producer_id jt.name) w.job_types ≡ none
      → SameMaps (put_job_type jt w).1 w'
      → (settle_job_type env services bucket store_prefix jt outcome w').0.0 ≢ none
      → SameMaps w (settle_job_type env services bucket store_prefix jt outcome w').1
  unfolding settle_job_type put_job_type
  settle_job_type-failed jt none w w' new same failed = absurd (failed refl)
  settle_job_type-failed jt (some e) w w' new same failed = record {
    same_producers = same.same_producers;
    same_job_types =
        rw same.same_job_types
          (delete-insert (job_type_key jt.producer_id jt.name) jt w.job_types new);
  }

  -- A producer that is not created leaves both maps as they were, also where the bucket has refused the
  -- write.
  pub create_producer-failed :
      (p : Producer) (w : World)
      → (create_producer env services bucket store_prefix p w).0.0 ≢ none
      → SameMaps w (create_producer env services bucket store_prefix p w).1
  unfolding create_producer
  create_producer-failed p w failed = elim (Option-cases (lookup p.producer_id w.producers)) [
    | inl new ↦
        let p' = stamp_producer (services.timestamp_of (now env w).0) p in
        let w' = (put_producer p' (now env w).1).1 in
        rw (new, create_producer)
          (settle_producer-failed p' (save_producers env services bucket store_prefix w').0
            (now env w).1 (save_producers env services bucket store_prefix w').1 new
            (save_producers-SameMaps w') (rw (new, create_producer) at failed))
    | inr (q, old) ↦
        rw (old, create_producer) (record { same_producers = refl; same_job_types = refl })
  ]

  -- A job type that is not created leaves both maps as they were, also where the bucket has refused the
  -- write.
  pub create_job_type-failed :
      (jt : JobType) (w : World)
      → (create_job_type env services bucket store_prefix jt w).0.0 ≢ none
      → SameMaps w (create_job_type env services bucket store_prefix jt w).1
  unfolding create_job_type
  create_job_type-failed jt w failed = elim (Option-cases (lookup jt.producer_id w.producers)) [
    | inl missing ↦
        rw (missing, create_job_type) (record { same_producers = refl; same_job_types = refl })
    | inr (p, there) ↦
        elim (Option-cases (lookup (job_type_key jt.producer_id jt.name) w.job_types)) [
          | inr (old, found) ↦
              rw (there, found, create_job_type)
                (record { same_producers = refl; same_job_types = refl })
          | inl new ↦
              let jt' = stamp_job_type (services.timestamp_of (now env w).0) jt in
              let w' = (put_job_type jt' (now env w).1).1 in
              rw (there, new, create_job_type)
                (settle_job_type-failed jt' (save_job_types env services bucket store_prefix w').0
                  (now env w).1 (save_job_types env services bucket store_prefix w').1 new
                  (save_job_types-SameMaps w') (rw (there, new, create_job_type) at failed))
        ]
  ]
