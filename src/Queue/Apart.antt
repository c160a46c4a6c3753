-- ===== src/Queue/Apart.antt =====
-- The backends (internal/queue/noop.go, pubsub.go) and the maps of the store.
use jack_service.Common.{String, List, [], ◌∷◌, refl, ℕ, arith, Result, inl, inr, Result-cases}
use jack_service.Go.{Error}
use jack_service.World.{◌>>=◌, Env}
use jack_service.Queue.{Job, EnqueueResult, Backend, BackendConfig}
use jack_service.Queue.Adapter.{LegacyPubsubJob, legacy_marshal, legacy_adapter}
use jack_service.Queue.Noop
use jack_service.Queue.Noop.{noop_backend}
use jack_service.Queue.PubSub.{
  Client, PubSubBackend, topic_for, publish_job, publish_message, count_published, hand_over,
  hand_over_all, pubsub_backend,
}
use jack_service.Queue.PubSub
use jack_service.Storage.Laws.{LeavesMaps, SameMaps-refl, SameMaps-trans}

pub record IsApartBackend (b : Backend) : Type 0 where
  pub on_enqueue : (job : Job) → LeavesMaps (b.enqueue job)
  pub on_enqueue_bulk : (jobs : List Job) → LeavesMaps (b.enqueue_bulk jobs)

noop_bulk-LeavesMaps :
    (config : BackendConfig) (jobs : List Job) → LeavesMaps (Noop.enqueue_bulk config jobs)
unfolding Noop.enqueue_bulk Noop.enqueue
noop_bulk-LeavesMaps config [] = record { leaves = SameMaps-refl }
noop_bulk-LeavesMaps config (job ∷ jobs) = record {
  leaves = λ w. (noop_bulk-LeavesMaps config jobs).leaves w;
}

pub noop_backend-IsApartBackend : (config : BackendConfig) → IsApartBackend (noop_backend config)
unfolding Noop.enqueue
noop_backend-IsApartBackend config = record {
  on_enqueue = λ job. record { leaves = SameMaps-refl };
  on_enqueue_bulk = noop_bulk-LeavesMaps config;
}

count_published-LeavesMaps :
    (jobs : List Job) (results : List EnqueueResult) → LeavesMaps (count_published jobs results)
unfolding count_published
count_published-LeavesMaps [] results = record { leaves = SameMaps-refl }
count_published-LeavesMaps (job ∷ jobs) [] = record { leaves = SameMaps-refl }
count_published-LeavesMaps (job ∷ jobs) (r ∷ results) = record {
  leaves = λ w. (count_published-LeavesMaps jobs results).leaves _;
}

pub legacy_adapter-LeavesMaps :
    (env : Env) (json_marshal : LegacyPubsubJob → Result Error (List ℕ)) (job : Job)
    → LeavesMaps ((legacy_adapter env json_marshal).marshal job)
unfolding legacy_marshal
legacy_adapter-LeavesMaps env json_marshal job = record {
  leaves = λ w. record { same_producers = refl; same_job_types = refl };
}

module _ (env : Env) (client : Client) where
  publish_job-LeavesMaps :
      (job : Job) (topic : String) (body : List ℕ)
      → LeavesMaps (publish_job env client job topic body)
  unfolding publish_job publish_message
  publish_job-LeavesMaps job topic body = record {
    leaves = λ w. record { same_producers = ground arith; same_job_types = ground arith };
  }

  module _ (b : PubSubBackend) (adapter : (job : Job) → LeavesMaps (b.adapter.marshal job)) where
    enqueue-LeavesMaps : (job : Job) → LeavesMaps (PubSub.enqueue env client b job)
    unfolding PubSub.enqueue publish_message
    enqueue-LeavesMaps job = elim (Result-cases (topic_for b job.priority)) [
      | inr (e, bad) ↦ rw (bad, PubSub.enqueue) (record { leaves = SameMaps-refl })
      | inl (topic, known) ↦
          rw (known, PubSub.enqueue)
            (record {
              leaves = λ w.
                  let v = (b.adapter.marshal job w).1 in
                  SameMaps-trans w v _ ((adapter job).leaves w)
                    (elim (Result-cases (b.adapter.marshal job w).0) [
                      | inr (e, bad) ↦ rw (bad, ◌>>=◌) (SameMaps-refl v)
                      | inl (body, good) ↦
                          rw (good, ◌>>=◌) ((publish_job-LeavesMaps job topic body).leaves v)
                    ]);
            })
    ]

    hand_over-LeavesMaps : (job : Job) → LeavesMaps (hand_over env client b job)
    unfolding hand_over publish_message
    hand_over-LeavesMaps job = elim (Result-cases (topic_for b job.priority)) [
      | inr (e, bad) ↦ rw (bad, hand_over) (record { leaves = SameMaps-refl })
      | inl (topic, known) ↦
          rw (known, hand_over)
            (record {
              leaves = λ w.
                  let v = (b.adapter.marshal job w).1 in
                  SameMaps-trans w v _ ((adapter job).leaves w)
                    (elim (Result-cases (b.adapter.marshal job w).0) [
                      | inr (e, bad) ↦ rw (bad, ◌>>=◌) (SameMaps-refl v)
                      | inl (body, good) ↦
                          rw (good, ◌>>=◌) (record { same_producers = refl; same_job_types = refl })
                    ]);
            })
    ]

    hand_over_all-LeavesMaps : (jobs : List Job) → LeavesMaps (hand_over_all env client b jobs)
    unfolding hand_over_all
    hand_over_all-LeavesMaps [] = record { leaves = SameMaps-refl }
    hand_over_all-LeavesMaps (job ∷ jobs) = record {
      leaves = λ w.
          let v = (hand_over env client b job w).1 in
          SameMaps-trans w v _ ((hand_over-LeavesMaps job).leaves w)
            ((hand_over_all-LeavesMaps jobs).leaves v);
    }

    enqueue_bulk-LeavesMaps : (jobs : List Job) → LeavesMaps (PubSub.enqueue_bulk env client b jobs)
    unfolding PubSub.enqueue_bulk
    enqueue_bulk-LeavesMaps jobs = record {
      leaves = λ w.
          let v = (hand_over_all env client b jobs w).1 in
          SameMaps-trans w v _ ((hand_over_all-LeavesMaps jobs).leaves w)
            ((count_published-LeavesMaps jobs _).leaves v);
    }

    pub pubsub_backend-IsApartBackend : IsApartBackend (pubsub_backend env client b)
    pubsub_backend-IsApartBackend = record {
      on_enqueue = enqueue-LeavesMaps;
      on_enqueue_bulk = enqueue_bulk-LeavesMaps;
    }
