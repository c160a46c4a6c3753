-- ===== src/Storage/Gcs/Durable.antt =====
-- The bucket of internal/storage/gcs.go and the two maps, over the operations of the store.
use jack_service.Common.{String, false, ◌≡◌, refl, List, ◌∷◌, none, inl, inr, Option-cases}
use jack_service.Common.Map.{Map, lookup}
use jack_service.Common.Map.Keys.{NodupKeys, Keyed, insert-NodupKeys, insert-Keyed}
use jack_service.Proto.{Producer, JobType}
use jack_service.World.{World, Env, Event, now}
use jack_service.Storage.{Services, stamp_producer, stamp_job_type}
use jack_service.Storage.Laws.{VisitsAll, HasMaps}
use jack_service.Storage.Memory.{put_producer, put_job_type}
use jack_service.Storage.Bucket.{Bucket, object_path, producers_file, job_types_file}
use jack_service.Storage.Gcs.{
  save_producers, save_job_types, settle_producer, settle_job_type, create_producer,
  create_job_type,
}
use jack_service.Storage.Gcs.Save.{
  save_producers-SameMaps, save_job_types-SameMaps, settle_producer-failed, settle_job_type-failed,
}
use jack_service.Storage.Gcs.Stored.{
  overwrites, IsBucket, id_of, key_of, ProducersStored, JobTypesStored, later-ProducersStored,
  later-JobTypesStored,
}
use jack_service.Storage.Gcs.Saved.{
  save_producers-stored, save_producers-unsaved, save_producers-job_types, save_job_types-stored,
  save_job_types-unsaved, save_job_types-producers,
}

module _ (bucket : Bucket) (store_prefix : String) where
  -- Each map has one entry for a key, under the key of its value, and the bucket holds both maps.
  pub record Durable (history : List Event) (producers : Map Producer) (job_types : Map JobType)
      : Type 0 where
    pub producers_once : NodupKeys producers
    pub producers_keyed : Keyed id_of producers
    pub producers_stored : ProducersStored bucket store_prefix history producers
    pub job_types_once : NodupKeys job_types
    pub job_types_keyed : Keyed key_of job_types
    pub job_types_stored : JobTypesStored bucket store_prefix history job_types

  abbrev pub IsDurable : World → Type 0
  IsDurable w = Durable w.history w.producers w.job_types

  -- The event changes neither object.
  abbrev pub Quiet : Event → Type 0
  Quiet e =
      (overwrites (object_path store_prefix producers_file) e ≡ false)
      × (overwrites (object_path store_prefix job_types_file) e ≡ false)

  -- Durable for the maps that a world has been found to hold.
  durable_of :
      (w : World) (producers : Map Producer) (job_types : Map JobType)
      → HasMaps producers job_types w
      → Durable w.history producers job_types
      → IsDurable w
  durable_of w producers job_types same d = rw (same.same_producers, same.same_job_types) d

  module _ (is : IsBucket bucket) where
    pub later-Durable :
        (history : List Event) (producers : Map Producer) (job_types : Map JobType) (e : Event)
        → Quiet e
        → Durable history producers job_types
        → Durable (e ∷ history) producers job_types
    later-Durable history producers job_types e (quiet_p, quiet_j) d = record {
      producers_once = d.producers_once;
      producers_keyed = d.producers_keyed;
      producers_stored =
          later-ProducersStored bucket store_prefix is history producers e quiet_p
            d.producers_stored;
      job_types_once = d.job_types_once;
      job_types_keyed = d.job_types_keyed;
      job_types_stored =
          later-JobTypesStored bucket store_prefix is history job_types e quiet_j
            d.job_types_stored;
    }

    module _ (env : Env) (services : Services) (visits : VisitsAll services) where
      now-IsDurable : (w : World) → IsDurable w → IsDurable (now env w).1
      unfolding now
      now-IsDurable w d = later-Durable w.history w.producers w.job_types _ (refl, refl) d

      -- The map with a new producer, saved and settled.
      add_producer-IsDurable :
          (p : Producer) (w : World)
          → lookup p.producer_id w.producers ≡ none
          → IsDurable w
          → (let saved = save_producers env services bucket store_prefix (put_producer p w).1 in
              IsDurable (settle_producer env services bucket store_prefix p saved.0 saved.1).1)
      unfolding put_producer settle_producer
      add_producer-IsDurable p w new d =
          let w' = (put_producer p w).1 in
          let same = save_producers-SameMaps env services bucket store_prefix w' in
          let once = insert-NodupKeys p.producer_id p w.producers d.producers_once in
          let keyed = insert-Keyed id_of p w.producers d.producers_keyed in
          let others =
            save_producers-job_types env services bucket store_prefix is visits w' w.job_types
              d.job_types_stored in
          elim (Option-cases (save_producers env services bucket store_prefix w').0) [
            | inl fine ↦
                rw (fine, settle_producer)
                  (durable_of _ w'.producers w.job_types same (record {
                    producers_once = once;
                    producers_keyed = keyed;
                    producers_stored =
                        save_producers-stored env services bucket store_prefix is visits w' once
                          keyed fine;
                    job_types_once = d.job_types_once;
                    job_types_keyed = d.job_types_keyed;
                    job_types_stored = others;
                  }))
            | inr (e, bad) ↦
                let saved = save_producers env services bucket store_prefix w' in
                durable_of _ w.producers w.job_types
                  (settle_producer-failed env services bucket store_prefix p saved.0 w saved.1 new
                    same (rw (bad, settle_producer) (λ h. cc)))
                  (rw (bad, settle_producer)
                    (record {
                      producers_once = d.producers_once;
                      producers_keyed = d.producers_keyed;
                      producers_stored =
                          save_producers-unsaved env services bucket store_prefix is visits w'
                            w.producers bad d.producers_stored;
                      job_types_once = d.job_types_once;
                      job_types_keyed = d.job_types_keyed;
                      job_types_stored = others;
                    }))
          ]

      add_job_type-IsDurable :
          (jt : JobType) (w : World)
          → lookup (key_of jt) w.job_types ≡ none
          → IsDurable w
          → (let saved = save_job_types env services bucket store_prefix (put_job_type jt w).1 in
              IsDurable (settle_job_type env services bucket store_prefix jt saved.0 saved.1).1)
      unfolding put_job_type settle_job_type
      add_job_type-IsDurable jt w new d =
          let w' = (put_job_type jt w).1 in
          let same = save_job_types-SameMaps env services bucket store_prefix w' in
          let once = insert-NodupKeys (key_of jt) jt w.job_types d.job_types_once in
          let keyed = insert-Keyed key_of jt w.job_types d.job_types_keyed in
          let others =
            save_job_types-producers env services bucket store_prefix is visits w' w.producers
              d.producers_stored in
          elim (Option-cases (save_job_types env services bucket store_prefix w').0) [
            | inl fine ↦
                rw (fine, settle_job_type)
                  (durable_of _ w.producers w'.job_types same (record {
                    producers_once = d.producers_once;
                    producers_keyed = d.producers_keyed;
                    producers_stored = others;
                    job_types_once = once;
                    job_types_keyed = keyed;
                    job_types_stored =
                        save_job_types-stored env services bucket store_prefix is visits w' once
                          keyed fine;
                  }))
            | inr (e, bad) ↦
                let saved = save_job_types env services bucket store_prefix w' in
                durable_of _ w.producers w.job_types
                  (settle_job_type-failed env services bucket store_prefix jt saved.0 w saved.1 new
                    same (rw (bad, settle_job_type) (λ h. cc)))
                  (rw (bad, settle_job_type)
                    (record {
                      producers_once = d.producers_once;
                      producers_keyed = d.producers_keyed;
                      producers_stored = others;
                      job_types_once = d.job_types_once;
                      job_types_keyed = d.job_types_keyed;
                      job_types_stored =
                          save_job_types-unsaved env services bucket store_prefix is visits w'
                            w.job_types bad d.job_types_stored;
                    }))
          ]

      pub create_producer-IsDurable :
          (p : Producer) (w : World)
          → IsDurable w
          → IsDurable (create_producer env services bucket store_prefix p w).1
      unfolding create_producer
      create_producer-IsDurable p w d = elim (Option-cases (lookup p.producer_id w.producers)) [
        | inr (q, old) ↦ rw (old, create_producer) d
        | inl new ↦
            rw (new, create_producer)
              (add_producer-IsDurable (stamp_producer (services.timestamp_of (now env w).0) p)
                (now env w).1 new (now-IsDurable w d))
      ]

      pub create_job_type-IsDurable :
          (jt : JobType) (w : World)
          → IsDurable w
          → IsDurable (create_job_type env services bucket store_prefix jt w).1
      unfolding create_job_type
      create_job_type-IsDurable jt w d = elim (Option-cases (lookup jt.producer_id w.producers)) [
        | inl missing ↦ rw (missing, create_job_type) d
        | inr (p, there) ↦ elim (Option-cases (lookup (key_of jt) w.job_types)) [
          | inr (old, found) ↦ rw (there, found, create_job_type) d
          | inl new ↦
              rw (there, new, create_job_type)
                (add_job_type-IsDurable (stamp_job_type (services.timestamp_of (now env w).0) jt)
                  (now env w).1 new (now-IsDurable w d))
        ]
      ]
