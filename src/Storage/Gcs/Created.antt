-- ===== src/Storage/Gcs/Created.antt =====
-- Creations that succeed in the store of internal/storage/gcs.go, against those of the memory store.
use jack_service.Common.{String, ◌≡◌, ◌≢◌, refl, Option, none, some, inl, inr, Option-cases}
use jack_service.Common.Map.{lookup}
use jack_service.Go.{Error}
use jack_service.Proto.{Producer, JobType}
use jack_service.World.{World, Env, now}
use jack_service.Storage.{Services, stamp_producer, stamp_job_type, job_type_key}
use jack_service.Storage.Memory
use jack_service.Storage.Memory.{put_producer, put_job_type}
use jack_service.Storage.Bucket.{Bucket}
use jack_service.Storage.Gcs.{
  create_producer, create_job_type, save_producers, save_job_types, settle_producer,
  settle_job_type,
}
use jack_service.Storage.Laws.{SameMaps}
use jack_service.Storage.Gcs.Save.{
  ProducersWritten, JobTypesWritten, save_producers-SameMaps, save_producers-written,
  save_job_types-SameMaps, save_job_types-written,
}

module _ (env : Env) (services : Services) (bucket : Bucket) (store_prefix : String) where
  settle_producer-created :
      (p : Producer) (outcome : Option Error) (w : World)
      → (settle_producer env services bucket store_prefix p outcome w).0.0 ≡ none
      → (outcome ≡ none)
        × (settle_producer env services bucket store_prefix p outcome w ≡ ((none, p), w))
  unfolding settle_producer
  settle_producer-created p none w h = (refl, refl)
  settle_producer-created p (some e) w h = cc

  settle_job_type-created :
      (jt : JobType) (outcome : Option Error) (w : World)
      → (settle_job_type env services bucket store_prefix jt outcome w).0.0 ≡ none
      → (outcome ≡ none)
        × (settle_job_type env services bucket store_prefix jt outcome w ≡ ((none, jt), w))
  unfolding settle_job_type
  settle_job_type-created jt none w h = (refl, refl)
  settle_job_type-created jt (some e) w h = cc

  -- The message as it is stored, and the world when the save begins.
  stamped : Producer → World → Producer
  stamped p w = stamp_producer (services.timestamp_of (now env w).0) p

  before_save : Producer → World → World
  unfolding stamped
  before_save p w = (put_producer (stamped p w) (now env w).1).1

  in_memory :
      (p : Producer) (w : World)
      → lookup p.producer_id w.producers ≡ none
      → Memory.create_producer env services p w ≡ ((none, stamped p w), before_save p w)
  unfolding Memory.create_producer before_save
  in_memory p w new = rw (new, Memory.create_producer)

  in_bucket :
      (p : Producer) (w : World)
      → lookup p.producer_id w.producers ≡ none
      → create_producer env services bucket store_prefix p w
        ≡ settle_producer env services bucket store_prefix
            (stamped p w)
            (save_producers env services bucket store_prefix (before_save p w)).0
            (save_producers env services bucket store_prefix (before_save p w)).1
  unfolding create_producer before_save
  in_bucket p w new = rw (new, create_producer)

  taken :
      (p q : Producer) (w : World)
      → lookup p.producer_id w.producers ≡ some q
      → (create_producer env services bucket store_prefix p w).0.0 ≢ none
  unfolding create_producer
  taken p q w old h = let wrong = rw (old, create_producer) at h in cc

  -- A producer that is created comes back as from the memory store, with the maps of the memory store, and
  -- the bucket has accepted an object that holds all producers, the new one among them.
  pub create_producer-created :
      (p : Producer) (w : World)
      → (create_producer env services bucket store_prefix p w).0.0 ≡ none
      → ((create_producer env services bucket store_prefix p w).0
          ≡ (Memory.create_producer env services p w).0)
        × SameMaps
            (Memory.create_producer env services p w).1
            (create_producer env services bucket store_prefix p w).1
        × ProducersWritten env services bucket store_prefix
            (create_producer env services bucket store_prefix p w).1
  create_producer-created p w done = elim (Option-cases (lookup p.producer_id w.producers)) [
    | inl new ↦
        let u = before_save p w in
        let (saved, settled) =
          settle_producer-created (stamped p w) _ _ (rw (in_bucket p w new) at done) in
        rw (in_bucket p w new, settled, in_memory p w new)
          (
            refl,
            save_producers-SameMaps env services bucket store_prefix u,
            save_producers-written env services bucket store_prefix u saved,
          )
    | inr (q, old) ↦ absurd (taken p q w old done)
  ]

  stamped_job_type : JobType → World → JobType
  stamped_job_type jt w = stamp_job_type (services.timestamp_of (now env w).0) jt

  before_job_types_save : JobType → World → World
  unfolding stamped_job_type
  before_job_types_save jt w = (put_job_type (stamped_job_type jt w) (now env w).1).1

  job_type_in_memory :
      (jt : JobType) (w : World) {p : Producer}
      → lookup jt.producer_id w.producers ≡ some p
      → lookup (job_type_key jt.producer_id jt.name) w.job_types ≡ none
      → Memory.create_job_type env services jt w
        ≡ ((none, stamped_job_type jt w), before_job_types_save jt w)
  unfolding Memory.create_job_type before_job_types_save
  job_type_in_memory jt w there new = rw (there, new, Memory.create_job_type)

  job_type_in_bucket :
      (jt : JobType) (w : World) {p : Producer}
      → lookup jt.producer_id w.producers ≡ some p
      → lookup (job_type_key jt.producer_id jt.name) w.job_types ≡ none
      → create_job_type env services bucket store_prefix jt w
        ≡ settle_job_type env services bucket store_prefix
            (stamped_job_type jt w)
            (save_job_types env services bucket store_prefix (before_job_types_save jt w)).0
            (save_job_types env services bucket store_prefix (before_job_types_save jt w)).1
  unfolding create_job_type before_job_types_save
  job_type_in_bucket jt w there new = rw (there, new, create_job_type)

  job_type_orphan :
      (jt : JobType) (w : World)
      → lookup jt.producer_id w.producers ≡ none
      → (create_job_type env services bucket store_prefix jt w).0.0 ≢ none
  unfolding create_job_type
  job_type_orphan jt w missing h = let wrong = rw (missing, create_job_type) at h in cc

  job_type_taken :
      (jt old : JobType) (p : Producer) (w : World)
      → lookup jt.producer_id w.producers ≡ some p
      → lookup (job_type_key jt.producer_id jt.name) w.job_types ≡ some old
      → (create_job_type env services bucket store_prefix jt w).0.0 ≢ none
  unfolding create_job_type
  job_type_taken jt old p w there found h =
      let wrong = rw (there, found, create_job_type) at h in cc

  -- A job type that is created comes back as from the memory store, with the maps of the memory store, and
  -- the bucket has accepted an object that holds all job types, the new one among them.
  pub create_job_type-created :
      (jt : JobType) (w : World)
      → (create_job_type env services bucket store_prefix jt w).0.0 ≡ none
      → ((create_job_type env services bucket store_prefix jt w).0
          ≡ (Memory.create_job_type env services jt w).0)
        × SameMaps
            (Memory.create_job_type env services jt w).1
            (create_job_type env services bucket store_prefix jt w).1
        × JobTypesWritten env services bucket store_prefix
            (create_job_type env services bucket store_prefix jt w).1
  create_job_type-created jt w done = elim (Option-cases (lookup jt.producer_id w.producers)) [
    | inl missing ↦ absurd (job_type_orphan jt w missing done)
    | inr (p, there) ↦
        elim (Option-cases (lookup (job_type_key jt.producer_id jt.name) w.job_types)) [
          | inr (old, found) ↦ absurd (job_type_taken jt old p w there found done)
          | inl new ↦
              let u = before_job_types_save jt w in
              let (saved, settled) =
                settle_job_type-created (stamped_job_type jt w) _ _
                  (rw (job_type_in_bucket jt w there new) at done) in
              rw (job_type_in_bucket jt w there new, settled, job_type_in_memory jt w there new)
                (
                  refl,
                  save_job_types-SameMaps env services bucket store_prefix u,
                  save_job_types-written env services bucket store_prefix u saved,
                )
        ]
  ]
