-- ===== src/Queue/PubSub/Delivery.antt =====
-- What `Enqueue` of internal/queue/pubsub.go has done when it reports a success.
use jack_service.Common.{
  ℕ, String, ◌≡◌, refl, List, [], ◌∷◌, none, some, ok, err, Result-cases, Option-cases, inl, inr,
}
use jack_service.Common.Text.{◌+++◌}
use jack_service.Go.{Error, wrapped}
use jack_service.World.{World, Env, Message, message_published, now, Logged}
use jack_service.Queue.{Job}
use jack_service.Queue.PubSub.{
  Client, PubSubBackend, attributes_of, topic_for, publish_job, enqueue,
}

abbrev pub message_of : Job → List ℕ → Message
message_of job body = record { body = body; attributes = attributes_of job }

module _ (env : Env) (client : Client) where
  publish_job-Logged :
      (job : Job) (topic : String) (body : List ℕ) (w : World)
      → (publish_job env client job topic body w).0 ≡ none
      → Logged
          (message_published topic (message_of job body) none)
          (publish_job env client job topic body w).1.history
  unfolding publish_job
  publish_job-Logged job topic body w h =
      let w' = (now env w).1 in
      elim (Option-cases (client.publish w'.history topic (message_of job body))) [
        | inl fine ↦ rw (fine, publish_job) (_ ∷ _ ∷ _ ∷ [], _, refl)
        | inr (e, bad) ↦ absurd (cc (rw (bad, publish_job) at h))
      ]

  module _ (b : PubSubBackend) where
    enqueue-refused :
        (job : Job) (w : World) {e : Error}
        → topic_for b job.priority ≡ err e
        → (enqueue env client b job w).0 ≡ some e
    unfolding enqueue
    enqueue-refused job w h = rw (h, enqueue) refl

    enqueue-unmarshalled :
        (job : Job) (w : World) {topic : String} {e : Error}
        → topic_for b job.priority ≡ ok topic
        → (b.adapter.marshal job w).0 ≡ err e
        → enqueue env client b job w ≡ (
          some (wrapped ("pubsub: marshal job " +++ (job.id +++ ": ")) e ""),
          (b.adapter.marshal job w).1,
        )
    unfolding enqueue
    enqueue-unmarshalled job w h m = rw (h, m, enqueue) refl

    enqueue-publish_job :
        (job : Job) (w : World) {topic : String} {body : List ℕ}
        → topic_for b job.priority ≡ ok topic
        → (b.adapter.marshal job w).0 ≡ ok body
        → enqueue env client b job w
          ≡ publish_job env client job topic body (b.adapter.marshal job w).1
    unfolding enqueue
    enqueue-publish_job job w h m = rw (h, m, enqueue) refl

    -- Where `Enqueue` reports no error, the message of the job, with the bytes that the adapter gives and
    -- the attribute `shadow`, has been published without an error to the topic of the job's priority.
    pub enqueue-Logged :
        (job : Job) (w : World)
        → (enqueue env client b job w).0 ≡ none
        → (topic : String) × (body : List ℕ) × (topic_for b job.priority ≡ ok topic)
          × ((b.adapter.marshal job w).0 ≡ ok body)
          × Logged
              (message_published topic (message_of job body) none)
              (enqueue env client b job w).1.history
    enqueue-Logged job w h = elim (Result-cases (topic_for b job.priority)) [
      | inr (e, bad) ↦ absurd (cc (enqueue-refused job w bad))
      | inl (topic, known) ↦ elim (Result-cases (b.adapter.marshal job w).0) [
        | inr (e, bad) ↦ absurd (cc (enqueue-unmarshalled job w known bad))
        | inl (body, good) ↦
            let same = enqueue-publish_job job w known good in
            (
              topic,
              body,
              known,
              good,
              rw same
                  (publish_job-Logged job topic body (b.adapter.marshal job w).1 (rw same at h)),
            )
      ]
    ]
