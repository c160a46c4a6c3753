-- ===== src/Examples/Queues.antt =====
-- The theorems on the queue backends and the schedulers at concrete inputs.
use jack_service.Common.{
  ℕ, zero, suc, ◌+◌, ◌≤◌, ◌<◌, ◌≡◌, refl, true, false, Bool, not, ◌&&◌, if◌then◌else◌, Bool-cases,
  inl, inr, sym, ap, String, List, [], ◌∷◌, none, some, ok, err, arith, eqb_iff,
}
use jack_service.Go.{Instant, text}
use jack_service.Common.Int.{pos, eqb_ℤ, eqb_ℤ_iff}
use jack_service.Common.Text.{◌==◌, eq_iff}
use jack_service.World.{message_published, Logged}
use jack_service.Queue.{Job, priority_high, priority_medium, priority_low}
use jack_service.Queue.PubSub.{
  Client, PubSubConfig, PubSubBackend, Topics, new_pubsub_backend, topic_for,
}
use jack_service.Queue.PubSub
use jack_service.Queue.PubSub.Topics.{topic_for-topic_of}
use jack_service.Queue.PubSub.{enqueue_bulk}
use jack_service.Queue.PubSub.Bulk.{IsAdapter, Delivered, enqueue_bulk-Delivered}
use jack_service.Queue.PubSub.Delivery.{message_of, enqueue-Logged}
use jack_service.Scheduler.{Codec, ScheduledJob, marshal_job, unmarshal_job}
use jack_service.Scheduler.RoundTrip.{IsCodec, unmarshal-marshal_job}
use jack_service.Scheduler.CloudTasks
use jack_service.Scheduler.CloudTasks.{CloudTasksScheduler}
use jack_service.Scheduler.CloudTasks.Bulk.{RunsAll, elem}
use jack_service.Examples.{env, nothing_yet, mail_job, plain_adapter}

abbrev pub client : Client
client = record {
  publish = λ history topic m. none;
  exists = λ history topic. ok true;
  close = λ history. none;
  range = λ topics. topics;
}

abbrev topics_config : PubSubConfig
topics_config = record {
  project = "jack";
  high_topic = "jobs-high";
  medium_topic = "jobs";
  low_topic = "";
  immediate_topic = "";
  adapter = some plain_adapter;
}

abbrev pubsub : PubSubBackend
pubsub = record {
  topics = (priority_medium, "jobs") ∷ (priority_high, "jobs-high") ∷ [];
  adapter = plain_adapter;
}

topic_for-topic_of_example : topic_for pubsub priority_low ≡ ok "jobs"
unfolding new_pubsub_backend topic_for
topic_for-topic_of_example = topic_for-topic_of none topics_config pubsub priority_low refl

enqueue-Logged_example :
    (topic : String) × (body : List ℕ) × (topic_for pubsub mail_job.priority ≡ ok topic)
    × ((pubsub.adapter.marshal mail_job nothing_yet).0 ≡ ok body)
    × Logged
        (message_published topic (message_of mail_job body) none)
        (PubSub.enqueue env client pubsub mail_job nothing_yet).1.history
unfolding PubSub.enqueue
enqueue-Logged_example = enqueue-Logged env client pubsub mail_job nothing_yet refl

-- A codec for this one job, whose two instants are that of `moment`.
abbrev pub moment : Instant
moment = pos 5

abbrev pub small_job : Job
small_job = record mail_job { payload = []; created_at = moment }

abbrev wire_job : ScheduledJob
wire_job = record {
  id = "pjob_1";
  producer_id = "prod_1";
  kind = "mail";
  priority = priority_high;
  payload = [];
  run_at = "t";
  trace_id = "";
  max_retries = pos 5;
  created_at = "t";
  shadow = false;
}

abbrev is_empty : List ℕ → Bool
is_empty [] = true
is_empty (b ∷ bs) = false

is_empty_iff : (bs : List ℕ) → is_empty bs ≡ true → bs ≡ []
is_empty_iff [] h = refl
is_empty_iff (b ∷ bs) h = cc

abbrev is_wire_job : ScheduledJob → Bool
is_wire_job sj =
    sj.id == "pjob_1"
    && (sj.producer_id == "prod_1"
        && (sj.kind == "mail"
            && (eqb_ℤ sj.priority priority_high
                && (is_empty sj.payload
                    && (sj.run_at == "t"
                        && (sj.trace_id == ""
                            && (eqb_ℤ sj.max_retries (pos 5)
                                && (sj.created_at == "t" && not sj.shadow))))))))

abbrev pub codec : Codec
codec = record {
  json_marshal = λ sj. if is_wire_job sj then ok (7 ∷ []) else err (text "no JSON");
  json_unmarshal = λ body. ok wire_job;
  format_time = λ t. "t";
  parse_time = λ s. ok moment;
}

and_true : (a b : Bool) → a && b ≡ true → (a ≡ true) × (b ≡ true)
and_true true b h = (refl, h)
and_true false b h = absurd (cc)

not-true : (b : Bool) → not b ≡ true → b ≡ false
not-true true h = cc
not-true false h = refl

is_wire_job_iff : (sj : ScheduledJob) → is_wire_job sj ≡ true → wire_job ≡ sj
is_wire_job_iff sj h0 =
    let (a, h1) = and_true _ _ h0 in
    let (b, h2) = and_true _ _ h1 in
    let (c, h3) = and_true _ _ h2 in
    let (d, h4) = and_true _ _ h3 in
    let (e, h5) = and_true _ _ h4 in
    let (f, h6) = and_true _ _ h5 in
    let (g, h7) = and_true _ _ h6 in
    let (k, h8) = and_true _ _ h7 in
    let (l, m) = and_true _ _ h8 in
    λ i. record {
      id = sym ((eq_iff sj.id "pjob_1").0 a) i;
      producer_id = sym ((eq_iff sj.producer_id "prod_1").0 b) i;
      kind = sym ((eq_iff sj.kind "mail").0 c) i;
      priority = sym ((eqb_ℤ_iff sj.priority priority_high).0 d) i;
      payload = sym (is_empty_iff sj.payload e) i;
      run_at = sym ((eq_iff sj.run_at "t").0 f) i;
      trace_id = sym ((eq_iff sj.trace_id "").0 g) i;
      max_retries = sym ((eqb_ℤ_iff sj.max_retries (pos 5)).0 k) i;
      created_at = sym ((eq_iff sj.created_at "t").0 l) i;
      shadow = sym (not-true sj.shadow m) i;
    }

pub codec-IsCodec : IsCodec (λ t. t ≡ moment) codec
codec-IsCodec = record {
  reads_back = λ sj body h. elim (Bool-cases (is_wire_job sj)) [
    | inl same ↦ ap ok (is_wire_job_iff sj same)
    | inr other ↦ absurd (cc (rw other at h))
  ];
  parses_back = λ t h. ap ok (sym h);
}

unmarshal-marshal_job_example : unmarshal_job codec (7 ∷ []) ≡ ok small_job
unfolding marshal_job
unmarshal-marshal_job_example =
    unmarshal-marshal_job (λ t. t ≡ moment) codec codec-IsCodec small_job (7 ∷ []) refl refl refl

-- Tasks run in the order of the jobs.
abbrev pub count_from : ℕ → ℕ → List ℕ
count_from i zero = []
count_from i (suc n) = i ∷ count_from (suc i) n

elem-count_from : (i k n : ℕ) → i ≤ k → k < i + n → elem k (count_from i n) ≡ true
elem-count_from i k zero l h = absurd (omega arith)
elem-count_from i k (suc n) l h = ground (arith, eqb_iff k i, elem-count_from (suc i) k n)

pub in_order-RunsAll : RunsAll (count_from 0)
in_order-RunsAll n i h = elem-count_from 0 i n (omega arith) (omega arith)

abbrev pub tasks_client : CloudTasks.Client
tasks_client = record {
  create_task = λ history task. none;
  close = λ history. none;
  timestamp_of = λ t. record { seconds = pos 0; nanos = pos 0 };
}

abbrev pub tasks : CloudTasksScheduler
tasks = record { queue_path = "projects/jack"; callback_url = "https://jack/cb"; sa_email = "" }

plain_adapter-IsAdapter : IsAdapter plain_adapter
plain_adapter-IsAdapter = record { appends = λ job w. ([], refl) }

enqueue_bulk-Delivered_example :
    Delivered env client pubsub small_job
      (enqueue_bulk env client pubsub (mail_job ∷ small_job ∷ []) nothing_yet).1.history
unfolding enqueue_bulk
enqueue_bulk-Delivered_example =
    enqueue_bulk-Delivered env client pubsub plain_adapter-IsAdapter (mail_job ∷ small_job ∷ [])
      nothing_yet 1 small_job (record { job_id = small_job.id; error = none }) refl refl refl
