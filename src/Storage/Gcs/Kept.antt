-- ===== src/Storage/Gcs/Kept.antt =====
-- The store of internal/storage/gcs.go as an implementation of the interface of a store.
use jack_service.Common.{String, ◌≡◌, refl, some, inl, inr, Option-cases}
use jack_service.Common.Map.{lookup}
use jack_service.Go.{Error}
use jack_service.Proto.{Producer, JobType}
use jack_service.World.{World, Env}
use jack_service.Storage.{Services, job_type_key}
use jack_service.Storage.Contract.{IsStore}
use jack_service.Storage.Memory
use jack_service.Storage.Bucket.{Bucket}
use jack_service.Storage.Gcs.{
  create_producer, create_job_type, get_producer, list_producers, get_job_type, list_job_types,
  gcs_store,
}
use jack_service.Storage.Gcs.Save.{create_producer-failed, create_job_type-failed}
use jack_service.Storage.Gcs.Created.{create_producer-created, create_job_type-created}

module _ (env : Env) (services : Services) (bucket : Bucket) (store_prefix : String) where
  create_producer-refused :
      (p : Producer) (w : World) (e : Error)
      → (Memory.create_producer env services p w).0.0 ≡ some e
      → create_producer env services bucket store_prefix p w
        ≡ Memory.create_producer env services p w
  unfolding create_producer Memory.create_producer
  create_producer-refused p w e h = elim (Option-cases (lookup p.producer_id w.producers)) [
    | inl new ↦ absurd (cc (rw (new, Memory.create_producer) at h))
    | inr (q, old) ↦ rw (old, create_producer, Memory.create_producer) refl
  ]

  create_job_type-refused :
      (jt : JobType) (w : World) (e : Error)
      → (Memory.create_job_type env services jt w).0.0 ≡ some e
      → create_job_type env services bucket store_prefix jt w
        ≡ Memory.create_job_type env services jt w
  unfolding create_job_type Memory.create_job_type
  create_job_type-refused jt w e h = elim (Option-cases (lookup jt.producer_id w.producers)) [
    | inl missing ↦ rw (missing, create_job_type, Memory.create_job_type) refl
    | inr (p, there) ↦
        elim (Option-cases (lookup (job_type_key jt.producer_id jt.name) w.job_types)) [
          | inl new ↦ absurd (cc (rw (there, new, Memory.create_job_type) at h))
          | inr (old, found) ↦ rw (there, found, create_job_type, Memory.create_job_type) refl
        ]
  ]

  -- The GCS store, whatever the bucket answers, keeps the contract: a creation that it reports as made is the one of
  -- the memory store, one that it reports as failed leaves the maps as they were, what the memory store refuses it
  -- refuses alike, and it reads and lists as the memory store.
  pub gcs_store-IsStore : IsStore env services (gcs_store env services bucket store_prefix)
  unfolding get_producer list_producers get_job_type list_job_types Memory.get_producer
      Memory.list_producers Memory.get_job_type Memory.list_job_types
  gcs_store-IsStore = record {
    creates_producer = λ p w. record {
      made =
          λ h. let c = create_producer-created env services bucket store_prefix p w h in (c.0, c.1);
      unmade = create_producer-failed env services bucket store_prefix p w;
      refused = create_producer-refused p w;
    };
    creates_job_type = λ jt w. record {
      made = λ h.
          let c = create_job_type-created env services bucket store_prefix jt w h in (c.0, c.1);
      unmade = create_job_type-failed env services bucket store_prefix jt w;
      refused = create_job_type-refused jt w;
    };
    gets_producer = λ id w. refl;
    gets_job_type = λ id name w. refl;
    lists_producers = λ w. refl;
    lists_job_types = λ id w. refl;
  }
