-- ===== src/Storage/Gcs/Saved.antt =====
-- What a save of internal/storage/gcs.go leaves in the bucket.
use jack_service.Common.{String, ◌≡◌, refl, none, some, inl, inr, Result-cases}
use jack_service.Common.Map.{Map}
use jack_service.Common.Map.Keys.{NodupKeys, Keyed}
use jack_service.Go.{Error}
use jack_service.Proto.{Producer, JobType}
use jack_service.World.{World, Env}
use jack_service.Storage.{Services}
use jack_service.Storage.Laws.{VisitsAll}
use jack_service.Storage.Bucket.{Bucket}
use jack_service.Storage.Gcs.{save_producers, save_job_types}
use jack_service.Storage.Gcs.Stored.{
  IsBucket, id_of, key_of, job_types_write_quiet, producers_write_quiet, ProducersStored,
  JobTypesStored, later-ProducersStored, later-JobTypesStored, written-ProducersStored,
  written-JobTypesStored,
}

module _ (env : Env) (services : Services) (bucket : Bucket) (store_prefix : String)
    (is : IsBucket bucket) (visits : VisitsAll services) where
  -- What a save leaves in the bucket: the new map if it succeeds, and else what was there.
  pub save_producers-stored :
      (w : World)
      → NodupKeys w.producers
      → Keyed id_of w.producers
      → (save_producers env services bucket store_prefix w).0 ≡ none
      → ProducersStored bucket store_prefix
          (save_producers env services bucket store_prefix w).1.history
          w.producers
  unfolding save_producers
  save_producers-stored w u keyed h =
      elim (Result-cases (bucket.marshal_producers (services.range_producers w.producers))) [
        | inr (x, bad) ↦ absurd (cc (rw (bad, save_producers) at h))
        | inl (bytes, good) ↦
            let fine = rw (good, save_producers) at h in
            rw (good, save_producers)
              (rw fine (
                written-ProducersStored bucket store_prefix is services visits w.history w.producers
                  bytes u keyed good))
      ]

  pub save_producers-unsaved :
      (w : World) (m : Map Producer) {e : Error}
      → (save_producers env services bucket store_prefix w).0 ≡ some e
      → ProducersStored bucket store_prefix w.history m
      → ProducersStored bucket store_prefix
          (save_producers env services bucket store_prefix w).1.history
          m
  unfolding save_producers
  save_producers-unsaved w m h stored =
      elim (Result-cases (bucket.marshal_producers (services.range_producers w.producers))) [
        | inr (x, bad) ↦ rw (bad, save_producers) stored
        | inl (bytes, good) ↦
            let failed = rw (good, save_producers) at h in
            rw (good, save_producers)
              (rw failed (later-ProducersStored bucket store_prefix is w.history m _ refl stored))
      ]

  pub save_producers-job_types :
      (w : World) (m : Map JobType)
      → JobTypesStored bucket store_prefix w.history m
      → JobTypesStored bucket store_prefix
          (save_producers env services bucket store_prefix w).1.history
          m
  unfolding save_producers
  save_producers-job_types w m stored =
      elim (Result-cases (bucket.marshal_producers (services.range_producers w.producers))) [
        | inr (x, bad) ↦ rw (bad, save_producers) stored
        | inl (bytes, good) ↦
            rw (good, save_producers)
              (later-JobTypesStored bucket store_prefix is w.history m _
                (producers_write_quiet store_prefix bytes _) stored)
      ]

  pub save_job_types-stored :
      (w : World)
      → NodupKeys w.job_types
      → Keyed key_of w.job_types
      → (save_job_types env services bucket store_prefix w).0 ≡ none
      → JobTypesStored bucket store_prefix
          (save_job_types env services bucket store_prefix w).1.history
          w.job_types
  unfolding save_job_types
  save_job_types-stored w u keyed h =
      elim (Result-cases (bucket.marshal_job_types (services.range_job_types w.job_types))) [
        | inr (x, bad) ↦ absurd (cc (rw (bad, save_job_types) at h))
        | inl (bytes, good) ↦
            let fine = rw (good, save_job_types) at h in
            rw (good, save_job_types)
              (rw fine (
                written-JobTypesStored bucket store_prefix is services visits w.history w.job_types
                  bytes u keyed good))
      ]

  pub save_job_types-unsaved :
      (w : World) (m : Map JobType) {e : Error}
      → (save_job_types env services bucket store_prefix w).0 ≡ some e
      → JobTypesStored bucket store_prefix w.history m
      → JobTypesStored bucket store_prefix
          (save_job_types env services bucket store_prefix w).1.history
          m
  unfolding save_job_types
  save_job_types-unsaved w m h stored =
      elim (Result-cases (bucket.marshal_job_types (services.range_job_types w.job_types))) [
        | inr (x, bad) ↦ rw (bad, save_job_types) stored
        | inl (bytes, good) ↦
            let failed = rw (good, save_job_types) at h in
            rw (good, save_job_types)
              (rw failed (later-JobTypesStored bucket store_prefix is w.history m _ refl stored))
      ]

  pub save_job_types-producers :
      (w : World) (m : Map Producer)
      → ProducersStored bucket store_prefix w.history m
      → ProducersStored bucket store_prefix
          (save_job_types env services bucket store_prefix w).1.history
          m
  unfolding save_job_types
  save_job_types-producers w m stored =
      elim (Result-cases (bucket.marshal_job_types (services.range_job_types w.job_types))) [
        | inr (x, bad) ↦ rw (bad, save_job_types) stored
        | inl (bytes, good) ↦
            rw (good, save_job_types)
              (later-ProducersStored bucket store_prefix is w.history m _
                (job_types_write_quiet store_prefix bytes _) stored)
      ]
