-- ===== src/Queue/PubSub/Bulk.antt =====
-- What `EnqueueBulk` of internal/queue/pubsub.go has done for the jobs whose results are without an error.
use jack_service.Common.{
  ℕ, zero, suc, get_elem?, String, ◌≡◌, refl, ap, ◌∙◌, List, [], ◌∷◌, Option, none, some, Result,
  ok, err, Result-cases, inl, inr,
}
use mathlib.Core.Option.{some-injective}
use jack_service.Go.{Error, wrapped}
use jack_service.World.{
  World, Env, Event, message_published, Logged, Extends, Extends-trans, Logged-later,
}
use jack_service.Queue.{Job, EnqueueResult}
use jack_service.Queue.Adapter.{MessageAdapter, LegacyPubsubJob, legacy_marshal, legacy_adapter}
use jack_service.Queue.PubSub.{
  Client, PubSubBackend, Pending, refused, sent, topic_for, settle, settle_all, count_published,
  publish_message, hand_over, hand_over_all, enqueue_bulk,
}
use jack_service.Queue.PubSub.Delivery.{message_of}

-- Marshalling a job forgets nothing that has happened.
pub record IsAdapter (adapter : MessageAdapter) : Type 0 where
  pub appends : (job : Job) (w : World) → Extends w.history (adapter.marshal job w).1.history

sent-injective : {o o' : Option Error} → sent o ≡ sent o' → o ≡ o'
sent-injective h = cc

-- The legacy adapter reads the clock.
pub legacy_adapter-IsAdapter :
    (env : Env) (json_marshal : LegacyPubsubJob → Result Error (List ℕ))
    → IsAdapter (legacy_adapter env json_marshal)
unfolding legacy_marshal
legacy_adapter-IsAdapter env json_marshal = record { appends = λ job w. (_ ∷ [], refl) }

settle_fine : (job : Job) (p : Pending) → (settle job p).error ≡ none → p ≡ sent none
unfolding settle
settle_fine job (refused e) h = absurd (cc)
settle_fine job (sent (some e)) h = absurd (cc)
settle_fine job (sent none) h = refl

pub count_published-Extends :
    (jobs : List Job) (results : List EnqueueResult) (w : World)
    → Extends w.history (count_published jobs results w).1.history
unfolding count_published
count_published-Extends [] results w = ([], refl)
count_published-Extends (job ∷ jobs) [] w = ([], refl)
count_published-Extends (job ∷ jobs) (r ∷ results) w =
    Extends-trans _ _ _ (_ ∷ [], refl) (count_published-Extends jobs results _)

module _ (env : Env) (client : Client) (b : PubSubBackend) where
  -- The message of the job, with bytes that the adapter has given for it, has been published without an error to the
  -- topic of the job's priority.
  abbrev pub Delivered : Job → List Event → Type 0
  Delivered job history =
      (topic : String) × (body : List ℕ) × (v : World) × (topic_for b job.priority ≡ ok topic)
      × ((b.adapter.marshal job v).0 ≡ ok body)
      × Logged (message_published topic (message_of job body) none) history

  pub Delivered-later :
      (job : Job) (h h' : List Event) → Extends h h' → Delivered job h → Delivered job h'
  Delivered-later job h h' later (topic, body, v, known, good, logged) =
      (topic, body, v, known, good, Logged-later _ h h' later logged)

  hand_over-refused :
      (job : Job) (w : World) {e : Error}
      → topic_for b job.priority ≡ err e
      → hand_over env client b job w ≡ (refused e, w)
  unfolding hand_over
  hand_over-refused job w h = rw (h, hand_over) refl

  hand_over-unmarshalled :
      (job : Job) (w : World) {topic : String} {e : Error}
      → topic_for b job.priority ≡ ok topic
      → (b.adapter.marshal job w).0 ≡ err e
      → hand_over env client b job w
        ≡ (refused (wrapped "marshal: " e ""), (b.adapter.marshal job w).1)
  unfolding hand_over
  hand_over-unmarshalled job w h m = rw (h, m, hand_over) refl

  hand_over-sent :
      (job : Job) (w : World) {topic : String} {body : List ℕ}
      → topic_for b job.priority ≡ ok topic
      → (b.adapter.marshal job w).0 ≡ ok body
      → hand_over env client b job w ≡ (
          let (outcome, w') =
            publish_message env client topic (message_of job body) (b.adapter.marshal job w).1 in
          (sent outcome, w'))
  unfolding hand_over
  hand_over-sent job w h m = rw (h, m, hand_over) refl

  -- Every job whose result in `results` has no error is delivered.
  abbrev AllDelivered : List Job → List EnqueueResult → List Event → Type 0
  AllDelivered [] results history = Unit
  AllDelivered (job ∷ jobs) [] history = ⊥
  AllDelivered (job ∷ jobs) (r ∷ results) history =
      (r.error ≡ none → Delivered job history) × AllDelivered jobs results history

  AllDelivered-later :
      (jobs : List Job) (results : List EnqueueResult) (h h' : List Event)
      → Extends h h'
      → AllDelivered jobs results h
      → AllDelivered jobs results h'
  AllDelivered-later [] results h h' later d = tt
  AllDelivered-later (job ∷ jobs) [] h h' later d = d
  AllDelivered-later (job ∷ jobs) (r ∷ results) h h' later (d, ds) =
      (λ e. Delivered-later job h h' later (d e), AllDelivered-later jobs results h h' later ds)

  AllDelivered-at :
      (jobs : List Job) (results : List EnqueueResult) (history : List Event)
      → AllDelivered jobs results history
      → (i : ℕ) (job : Job) (r : EnqueueResult) → get_elem? jobs i ≡ some job
      → get_elem? results i ≡ some r
      → r.error ≡ none
      → Delivered job history
  AllDelivered-at [] results history d i job r at at' fine = absurd (cc)
  AllDelivered-at (_ ∷ jobs) [] history d i job r at at' fine = absurd d
  AllDelivered-at (_ ∷ jobs) (_ ∷ results) history (d, ds) zero job r at at' fine =
      rw (some-injective _ _ at) at (d (ap (λ x. x.error) (some-injective _ _ at') ∙ fine))
  AllDelivered-at (_ ∷ jobs) (_ ∷ results) history (d, ds) (suc i) job r at at' fine =
      AllDelivered-at jobs results history ds i job r at at' fine

  module _ (is : IsAdapter b.adapter) where
    hand_over-Extends :
        (job : Job) (w : World) → Extends w.history (hand_over env client b job w).1.history
    unfolding publish_message
    hand_over-Extends job w = elim (Result-cases (topic_for b job.priority)) [
      | inr (e, bad) ↦ rw (hand_over-refused job w bad) ([], refl)
      | inl (topic, known) ↦ elim (Result-cases (b.adapter.marshal job w).0) [
        | inr (e, bad) ↦ rw (hand_over-unmarshalled job w known bad) (is.appends job w)
        | inl (body, good) ↦
            rw (hand_over-sent job w known good)
              (Extends-trans _ _ _ (is.appends job w) (_ ∷ [], refl))
      ]
    ]

    hand_over-Delivered :
        (job : Job) (w : World)
        → (hand_over env client b job w).0 ≡ sent none
        → Delivered job (hand_over env client b job w).1.history
    unfolding publish_message
    hand_over-Delivered job w h = elim (Result-cases (topic_for b job.priority)) [
      | inr (e, bad) ↦ absurd (cc (rw (hand_over-refused job w bad) at h))
      | inl (topic, known) ↦ elim (Result-cases (b.adapter.marshal job w).0) [
        | inr (e, bad) ↦ absurd (cc (rw (hand_over-unmarshalled job w known bad) at h))
        | inl (body, good) ↦
            let run = hand_over-sent job w known good in
            let w' = (b.adapter.marshal job w).1 in
            let fine = sent-injective (rw run at h) in
            (
              topic,
              body,
              w,
              known,
              good,
              rw run (
                [],
                w'.history,
                ap (λ o. message_published topic (message_of job body) o ∷ w'.history) fine,
              ),
            )
      ]
    ]

    pub hand_over_all-Extends :
        (jobs : List Job) (w : World)
        → Extends w.history (hand_over_all env client b jobs w).1.history
    unfolding hand_over_all
    hand_over_all-Extends [] w = ([], refl)
    hand_over_all-Extends (job ∷ jobs) w =
        Extends-trans _ _ _ (hand_over-Extends job w)
          (hand_over_all-Extends jobs (hand_over env client b job w).1)

    hand_over_all-AllDelivered :
        (jobs : List Job) (w : World)
        → (let (pending, w') = hand_over_all env client b jobs w in
            AllDelivered jobs (settle_all jobs pending) w'.history)
    unfolding hand_over_all settle_all
    hand_over_all-AllDelivered [] w = tt
    hand_over_all-AllDelivered (job ∷ jobs) w =
        let v = (hand_over env client b job w).1 in
        (
          λ e.
              Delivered-later job v.history _ (hand_over_all-Extends jobs v)
                (hand_over-Delivered job w (settle_fine job _ e)),
          hand_over_all-AllDelivered jobs v,
        )

    enqueue_bulk-AllDelivered :
        (jobs : List Job) (w : World)
        → (let (results, w') = enqueue_bulk env client b jobs w in
            AllDelivered jobs results w'.history)
    unfolding enqueue_bulk
    enqueue_bulk-AllDelivered jobs w =
        let (pending, v) = hand_over_all env client b jobs w in
        AllDelivered-later jobs (settle_all jobs pending) v.history _
          (count_published-Extends jobs (settle_all jobs pending) v)
          (hand_over_all-AllDelivered jobs w)

    -- If the Pub/Sub EnqueueBulk reports no error for the job at an index, then its message, with bytes that the
    -- adapter has given for it and the attribute `shadow`, has been published without an error to the topic of its
    -- priority. The adapter may do no more to the history than to add to it.
    pub enqueue_bulk-Delivered :
        (jobs : List Job) (w : World) (i : ℕ) (job : Job) (r : EnqueueResult)
        → get_elem? jobs i ≡ some job
        → get_elem? (enqueue_bulk env client b jobs w).0 i ≡ some r
        → r.error ≡ none
        → Delivered job (enqueue_bulk env client b jobs w).1.history
    enqueue_bulk-Delivered jobs w =
        AllDelivered-at jobs (enqueue_bulk env client b jobs w).0
          (enqueue_bulk env client b jobs w).1.history (enqueue_bulk-AllDelivered jobs w)
