-- ===== src/Storage/Gcs/Start.antt =====
-- The start of a store with a bucket (`NewGCSStore` and `load` of internal/storage/gcs.go).
use jack_service.Common.{
  String, ◌≡◌, refl, ap, ◌∙◌, List, [], none, ok, err, inl, inr, Option, some, Option-cases,
  ok-injective, Result-cases,
}
use jack_service.Common.Map.{lookup}
use jack_service.Common.Map.Keys.{index_by-NodupKeys, index_by-Keyed}
use jack_service.Go.{Error}
use jack_service.Proto.{Producer, JobType}
use jack_service.World.{World, Env, Event}
use jack_service.Storage.{Services, Store}
use jack_service.Storage.Bucket.{Bucket, load_producers, load_job_types}
use jack_service.Storage.Gcs.{gcs_store, index_producers, index_job_types, load, new_gcs_store}
use jack_service.Storage.Gcs.Stored.{id_of, key_of}
use jack_service.Storage.Gcs.Durable.{Durable, IsDurable}

module _ (env : Env) (services : Services) (bucket : Bucket) (store_prefix : String) where
  store : Store
  store = gcs_store env services bucket store_prefix

  loaded :
      (w : World) {ps : List Producer} {jts : List JobType}
      → load_producers bucket store_prefix w.history ≡ ok ps
      → load_job_types bucket store_prefix w.history ≡ ok jts
      → load env services bucket store_prefix w
        ≡ (none, record w { producers = index_producers ps []; job_types = index_job_types jts [] })
  unfolding load
  loaded w p j = rw (p, j, load)

  -- A start that reads both objects, and one that fails.
  started :
      (w : World) {ps : List Producer} {jts : List JobType}
      → load_producers bucket store_prefix w.history ≡ ok ps
      → load_job_types bucket store_prefix w.history ≡ ok jts
      → new_gcs_store env services bucket store_prefix none w ≡ (
        ok store,
        record w { producers = index_producers ps []; job_types = index_job_types jts [] },
      )
  unfolding new_gcs_store store
  started w p j =
      let at_start = loaded (record w { producers = []; job_types = [] }) p j in
      rw (p, j, new_gcs_store) (ap (λ x. (ok store, x.1)) at_start)

  producers_unread :
      (w : World) {e : Error} {s : Store}
      → load_producers bucket store_prefix w.history ≡ err e
      → (new_gcs_store env services bucket store_prefix none w).0 ≡ ok s
      → ⊥
  unfolding new_gcs_store
  producers_unread w p h = cc (rw (p, new_gcs_store) at h)

  job_types_unread :
      (w : World) {e : Error} {s : Store} {ps : List Producer}
      → load_producers bucket store_prefix w.history ≡ ok ps
      → load_job_types bucket store_prefix w.history ≡ err e
      → (new_gcs_store env services bucket store_prefix none w).0 ≡ ok s
      → ⊥
  unfolding new_gcs_store
  job_types_unread w p j h = cc (rw (p, j, new_gcs_store) at h)

  indexed-Durable :
      (history : List Event) {ps : List Producer} {jts : List JobType}
      → load_producers bucket store_prefix history ≡ ok ps
      → load_job_types bucket store_prefix history ≡ ok jts
      → Durable bucket store_prefix history (index_producers ps []) (index_job_types jts [])
  unfolding index_producers index_job_types lookup
  indexed-Durable history {ps} {jts} p j = record {
    producers_once = index_by-NodupKeys id_of ps [] tt;
    producers_keyed = index_by-Keyed id_of ps [] (λ k v h. cc);
    producers_stored = (ps, p, λ k. refl);
    job_types_once = index_by-NodupKeys key_of jts [] tt;
    job_types_keyed = index_by-Keyed key_of jts [] (λ k v h. cc);
    job_types_stored = (jts, j, λ k. refl);
  }

  -- A store that has started holds what the bucket holds.
  pub new_gcs_store-IsDurable :
      (w : World) (s : Store)
      → (new_gcs_store env services bucket store_prefix none w).0 ≡ ok s
      → IsDurable bucket store_prefix (new_gcs_store env services bucket store_prefix none w).1
  new_gcs_store-IsDurable w s h =
      elim (Result-cases (load_producers bucket store_prefix w.history)) [
        | inr (e, bad) ↦ absurd (producers_unread w bad h)
        | inl (ps, p) ↦ elim (Result-cases (load_job_types bucket store_prefix w.history)) [
          | inr (e, bad) ↦ absurd (job_types_unread w p bad h)
          | inl (jts, j) ↦ rw (started w p j) (indexed-Durable w.history p j)
        ]
      ]

  -- A process that starts with the same bucket reads the same maps.
  pub reload :
      (w u : World)
      → IsDurable bucket store_prefix w
      → u.history ≡ w.history
      → (let (made, v) = new_gcs_store env services bucket store_prefix none u in
          (made ≡ ok (gcs_store env services bucket store_prefix))
          × ((k : String) → lookup k v.producers ≡ lookup k w.producers)
          × ((k : String) → lookup k v.job_types ≡ lookup k w.job_types))
  unfolding store
  reload w u d same =
      let (ps, p, same_producers) = d.producers_stored in
      let (jts, j, same_job_types) = d.job_types_stored in
      rw
        (started u (ap (λ h. load_producers bucket store_prefix h) same ∙ p)
          (ap (λ h. load_job_types bucket store_prefix h) same ∙ j))
        (refl, same_producers, same_job_types)

  -- NewGCSStore returns no other store.
  pub new_gcs_store-ok :
      (client : Option Error) (w : World) {s : Store}
      → (new_gcs_store env services bucket store_prefix client w).0 ≡ ok s
      → gcs_store env services bucket store_prefix ≡ s
  unfolding new_gcs_store
  new_gcs_store-ok (some e) w h = absurd (cc)
  new_gcs_store-ok none w h =
      elim (Option-cases
        (load env services bucket store_prefix (record w { producers = []; job_types = [] })).0) [
          | inl fine ↦ ok-injective (rw (fine, new_gcs_store) at h)
          | inr (e, bad) ↦ absurd (cc (rw (bad, new_gcs_store) at h))
        ]
