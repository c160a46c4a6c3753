-- ===== src/Queue/PubSub.antt =====
-- internal/queue/pubsub.go: a backend that publishes to one Pub/Sub topic for each priority.
-- A topic stands for its name. What `Publish` and `Get` answer for a message is a parameter.
pub mod Answers
pub mod Topics
pub mod Delivery
pub mod Bulk
pub mod Vouched
pub mod Health
use jack_service.Common.{
  ℕ, String, Bool, true, false, List, [], ◌∷◌, ◌++◌, Option, none, some, Result, ok, err,
  if◌then◌else◌,
}
use jack_service.Common.Int.{eqb_ℤ}
use jack_service.Common.Text.{◌==◌, ◌+++◌}
use jack_service.Go.{Error, text, wrapped}
use jack_service.World.{
  topic_stopped, to_pubsub, close_connection, M, ◌>>=◌, ◌>>◌, pure, Env, Event, Message,
  message_published, topic_checked, incr, distribution, now, since, emit, send,
}
use jack_service.Queue.{
  Priority, priority_text, priority_high, priority_medium, priority_low, priority_immediate, Job,
  EnqueueResult, Backend,
}
use jack_service.Queue.Adapter.{MessageAdapter}

abbrev pub Topics : Type 0
Topics = List (Priority × String)

-- b.topics[p]
unfoldable pub topic_at : Priority → Topics → Option String
topic_at p [] = none
topic_at p ((q, topic) ∷ topics) = if eqb_ℤ q p then some topic else topic_at p topics

pub record PubSubConfig : Type 0 where
  pub project : String
  pub high_topic : String
  pub medium_topic : String
  pub low_topic : String
  pub immediate_topic : String
  pub adapter : Option MessageAdapter

pub record PubSubBackend : Type 0 where
  pub topics : Topics
  pub adapter : MessageAdapter

-- topics[p] = client.Topic(name), if the name is set
unfoldable pub configured : Priority → String → Topics → Topics
configured p name topics = if name == "" then topics else (p, name) ∷ topics

-- NewPubSubBackend; `client` is the error of pubsub.NewClient.
unfoldable pub new_pubsub_backend :
    (client : Option Error) → PubSubConfig → Result Error PubSubBackend
unfolding configured
new_pubsub_backend client cfg =
    if cfg.project == "" then err (text "pubsub: project is required") else elim cfg.adapter [
      | none ↦ err (text "pubsub: adapter is required")
      | some adapter ↦ elim client [
        | some e ↦ err (wrapped "pubsub: create client: " e "")
        | none ↦ ok (record {
          topics = configured priority_immediate cfg.immediate_topic (
              configured priority_low cfg.low_topic (
                configured priority_medium cfg.medium_topic
                  (configured priority_high cfg.high_topic [])));
          adapter = adapter;
        })
      ]
    ]

unfoldable pub topic_for : PubSubBackend → Priority → Result Error String
unfolding topic_at priority_text
topic_for b p = elim (topic_at p b.topics) [
  | some topic ↦ ok topic
  | none ↦ elim (topic_at priority_medium b.topics) [
    | some topic ↦ ok topic
    | none ↦ err (text ("pubsub: no topic configured for priority " +++ priority_text p))
  ]
]

-- strconv.FormatBool
abbrev pub format_bool : Bool → String
format_bool true = "true"
format_bool false = "false"

abbrev pub attributes_of : Job → List (String × String)
attributes_of job = ("shadow", format_bool job.shadow) ∷ []

-- What the code calls of the Pub/Sub client. `publish` is the outcome that `Get` gives for a message,
-- `exists` that of topic.Exists, and `range` the order in which a loop visits the map of topics.
pub record Client : Type 0 where
  pub publish : List Event → String → Message → Option Error
  pub exists : List Event → String → Result Error Bool
  pub close : List Event → Option Error
  pub range : Topics → Topics

-- What EnqueueBulk holds for a job that it has handed over, or could not.
pub data Pending : Type 0 where
  refused : Error → Pending
  sent : Option Error → Pending

-- The entry of `results` for a job; each goroutine writes the one of its own index.
unfoldable pub settle : Job → Pending → EnqueueResult
settle job (refused e) = record { job_id = job.id; error = some e }
settle job (sent (some e)) = record {
  job_id = job.id;
  error = some (wrapped "pubsub: publish: " e "");
}
settle job (sent none) = record { job_id = job.id; error = none }

unfoldable pub settle_all : List Job → List Pending → List EnqueueResult
unfolding settle
settle_all [] pending = []
settle_all (job ∷ jobs) [] = []
settle_all (job ∷ jobs) (p ∷ pending) = settle job p ∷ settle_all jobs pending

abbrev pub status_tag : Option Error → String
status_tag none = "status:success"
status_tag (some e) = "status:error"

-- The loop over the results that counts each job.
unfoldable pub count_published : List Job → List EnqueueResult → M (Unit {0})
unfolding send priority_text
count_published [] results = pure tt
count_published (job ∷ jobs) [] = pure tt
count_published (job ∷ jobs) (r ∷ results) = do
  send (
      incr "jack.publish.count"
        (("priority:" +++ priority_text job.priority) ∷ status_tag r.error ∷ []))
  count_published jobs results

-- The loop of Close.
unfoldable pub stop_topics : Topics → M (Unit {0})
unfolding emit
stop_topics [] = pure tt
stop_topics ((p, topic) ∷ topics) = do emit (topic_stopped topic); stop_topics topics

module _ (env : Env) (client : Client) where
  -- topic.Publish, with the outcome of its result
  unfoldable pub publish_message : String → Message → M (Option Error)
  unfolding emit
  publish_message topic m w =
      let outcome = client.publish w.history topic m in
      (outcome, (emit (message_published topic m outcome) w).1)

  -- The rest of Enqueue once the message is there.
  unfoldable pub publish_job : Job → String → List ℕ → M (Option Error)
  unfolding publish_message now since send priority_text
  publish_job job topic body = do
    let tag = "priority:" +++ priority_text job.priority
    start ← now env
    outcome ← publish_message topic (record { body = body; attributes = attributes_of job })
    elim outcome [
      | some e ↦ (do
        send (incr "jack.publish.count" (tag ∷ "status:error" ∷ []))
        pure (some (wrapped ("pubsub: publish job " +++ (job.id +++ ": ")) e "")))
      | none ↦ (do
        send (incr "jack.publish.count" (tag ∷ "status:success" ∷ []))
        duration ← since env start
        send (distribution "jack.publish.duration" duration (tag ∷ []))
        pure none)
    ]

  module _ (b : PubSubBackend) where
    unfoldable pub enqueue : Job → M (Option Error)
    unfolding topic_for publish_job
    enqueue job = elim (topic_for b job.priority) [
      | err e ↦ pure (some e)
      | ok topic ↦ (do
        marshalled ← b.adapter.marshal job
        elim marshalled [
          | err e ↦ pure (some (wrapped ("pubsub: marshal job " +++ (job.id +++ ": ")) e ""))
          | ok body ↦ publish_job job topic body
        ])
    ]

    -- The body of the loop that publishes.
    unfoldable pub hand_over : Job → M Pending
    unfolding topic_for publish_message
    hand_over job = elim (topic_for b job.priority) [
      | err e ↦ pure (refused e)
      | ok topic ↦ (do
        marshalled ← b.adapter.marshal job
        elim marshalled [
          | err e ↦ pure (refused (wrapped "marshal: " e ""))
          | ok body ↦ (do
            outcome ← publish_message topic (record { body = body; attributes = attributes_of job })
            pure (sent outcome))
        ])
    ]

    unfoldable pub hand_over_all : List Job → M (List Pending)
    unfolding hand_over
    hand_over_all [] = pure []
    hand_over_all (job ∷ jobs) = do p ← hand_over job; rest ← hand_over_all jobs; pure (p ∷ rest)

    unfoldable pub enqueue_bulk : List Job → M (List EnqueueResult)
    unfolding hand_over_all settle_all count_published
    enqueue_bulk jobs = do
      pending ← hand_over_all jobs
      let results = settle_all jobs pending
      count_published jobs results
      pure results

    unfoldable pub check_topics : Topics → M (Option Error)
    unfolding emit priority_text
    check_topics [] w = (none, w)
    check_topics ((p, topic) ∷ topics) w =
        let found = client.exists w.history topic in
        let w' = (emit (topic_checked topic found) w).1 in
        let rest = check_topics topics w' in
        elim found [
          | err e ↦ (
            some (wrapped ("pubsub: health check for " +++ (priority_text p +++ " topic: ")) e ""),
            w',
          )
          | ok false ↦ (
            some (
                text (
                  "pubsub: topic "
                  +++ (topic +++ (" for " +++ (priority_text p +++ " does not exist"))))),
            w',
          )
          | ok true ↦ rest
        ]

    unfoldable pub health : M (Option Error)
    unfolding check_topics
    health = check_topics (client.range b.topics)

    -- Close
    unfoldable pub close : M (Option Error)
    unfolding stop_topics close_connection
    close = do stop_topics (client.range b.topics); close_connection to_pubsub client.close

    abbrev pub pubsub_backend : Backend
    pubsub_backend = record {
      enqueue = enqueue;
      enqueue_bulk = enqueue_bulk;
      health = health;
      close = close;
    }
