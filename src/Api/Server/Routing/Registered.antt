-- ===== src/Api/Server/Routing/Registered.antt =====
-- A registration in a store (internal/storage/storage.go) and the jobs that internal/api/server.go
-- routes after it.
use jack_service.Common.{
  Bool, false, ◌≡◌, refl, sym, ap, ◌∙◌, none, some, if◌then◌else◌, Option-cases, inl, inr,
}
use jack_service.Common.Map.{lookup, lookup-insert}
use jack_service.Common.Text.{eq_refl}
use jack_service.Proto.{JobType, EnqueueRequest}
use jack_service.World.{World, Env}
use jack_service.Storage.Contract.{IsStore}
use jack_service.Storage.{Store, Services, job_type_key}
use jack_service.Storage.Memory.{create_job_type, put_job_type}
use jack_service.Api.Server.{
  Server, Libraries, legacy_payload_priority, storage_queue_to_queue_priority, prepare_job,
}
use jack_service.Api.Server.Routing.{
  source_of, registered, legacy_of, priority_from, retries_from, prepare_job-Routes,
}

module _ (lib : Libraries) (s : Server) (env : Env) (services : Services) (store : Store)
    (is : IsStore env services store) where
  created_in_memory :
      (jt : JobType) (w : World)
      → (create_job_type env services jt w).0.0 ≡ none
      → (stored : JobType) × (lookup
            (job_type_key jt.producer_id jt.name)
            (create_job_type env services jt w).1.job_types
          ≡ some stored)
        × (stored.queue ≡ jt.queue)
        × (stored.max_retries ≡ jt.max_retries)
  unfolding create_job_type put_job_type
  created_in_memory jt w h = elim (Option-cases (lookup jt.producer_id w.producers)) [
    | inl missing ↦ absurd (cc (rw (missing, create_job_type) at h))
    | inr (p, there) ↦
        elim (Option-cases (lookup (job_type_key jt.producer_id jt.name) w.job_types)) [
          | inr (old, found) ↦ absurd (cc (rw (there, found, create_job_type) at h))
          | inl new ↦
              rw
                (
                  there,
                  new,
                  create_job_type,
                  lookup-insert,
                  eq_refl (job_type_key jt.producer_id jt.name),
                )
                (_, refl, refl, refl)
        ]
  ]

  created :
      (jt : JobType) (w : World)
      → (store.create_job_type jt w).0.0 ≡ none
      → (stored : JobType) × (lookup
            (job_type_key jt.producer_id jt.name)
            (store.create_job_type jt w).1.job_types
          ≡ some stored)
        × (stored.queue ≡ jt.queue)
        × (stored.max_retries ≡ jt.max_retries)
  created jt w h =
      let (same, maps) = (is.creates_job_type jt w).made h in
      let (stored, found, queue, retries) = created_in_memory jt w (ap (λ x. x.0) (sym same) ∙ h) in
      (
        stored,
        ap (lookup (job_type_key jt.producer_id jt.name)) maps.same_job_types ∙ found,
        queue,
        retries,
      )

  -- A registration takes effect: once a job type is created in a store that keeps its contract, and with the routing by
  -- payload off, the jobs of that producer and type get its queue and its retries.
  pub create_job_type-Routes :
      (jt : JobType) (shadow : Bool) (q : EnqueueRequest) (w : World)
      → s.store ≡ some store
      → s.config.legacy_payload_queue_routing ≡ false
      → (store.create_job_type jt w).0.0 ≡ none
      → q.producer_id ≡ jt.producer_id
      → q.job_type ≡ jt.name
      → (let job = (prepare_job lib s shadow q (store.create_job_type jt w).1).0.0 in
          (job.priority ≡ storage_queue_to_queue_priority jt.queue)
          × (job.max_retries ≡ jt.max_retries))
  create_job_type-Routes jt shadow q w stored off done producer kind =
      let v = (store.create_job_type jt w).1 in
      let (kept, found, queue, retries) = created jt w done in
      let key : job_type_key q.producer_id q.job_type ≡ job_type_key jt.producer_id jt.name =
        ap (λ x. job_type_key x q.job_type) producer ∙ ap (job_type_key jt.producer_id) kind in
      let silent : legacy_of lib s q ≡ none =
        ap (λ b. if b then legacy_payload_priority lib q.payload else none) off in
      let source : source_of (legacy_of lib s q)
            (lookup (job_type_key q.producer_id q.job_type) v.job_types)
          ≡ registered kept =
        ap (λ o. source_of o (lookup (job_type_key q.producer_id q.job_type) v.job_types)) silent
        ∙ ap (λ k. source_of none (lookup k v.job_types)) key
        ∙ ap (source_of none) found in
      let (a, b) = prepare_job-Routes lib s env services store is shadow q v stored in
      (
        a ∙ ap (priority_from lib s) source ∙ ap storage_queue_to_queue_priority queue,
        b ∙ ap (retries_from lib s) source ∙ retries,
      )
