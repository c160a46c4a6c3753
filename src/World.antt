-- ===== src/World.antt =====
-- The state that a request runs in, and the calls that leave the process.
-- The history holds every such call with its outcome, the latest first: readings of the clock and of
-- the random source, metrics, the calls of Pub/Sub, Cloud Tasks and Cloud Storage, the end of each connection, and
-- the steps of the shutdown. What these answer is
-- not in the repository: it is a parameter, a function of the history and of the call, so that it may
-- differ from call to call. Lines written with the log package are left out.
use mathlib.Core.List.{append_assoc}
use jack_service.Common.{ℕ, String, List, ◌∷◌, ◌++◌, ◌≡◌, sym, ap, ◌∙◌, Option, Bool, Result}
use jack_service.Common.Map.{Map}
use jack_service.Common.Int.{ℤ}
use jack_service.Go.{Instant, Duration, Error, sub_time}
use jack_service.Proto.{Producer, JobType, Timestamp}

-- The calls of statsd.ClientInterface. A distribution's value is the whole number of nanoseconds or
-- bytes that the code converts to a float.
pub data Metric : Type 0 where
  incr : (name : String) (tags : List String) → Metric
  distribution : (name : String) (value : ℤ) (tags : List String) → Metric

-- pubsub.Message
pub record Message : Type 0 where
  pub body : List ℕ
  pub attributes : List (String × String)

-- What cloudtaskspb.CreateTaskRequest holds; `oidc` is the service account and the audience of the
-- token.
pub record Task : Type 0 where
  pub parent : String
  pub name : String
  pub schedule_time : Timestamp
  pub url : String
  pub headers : List (String × String)
  pub body : List ℕ
  pub oidc : Option (String × String)

-- The clients that the process holds, each with its connection.
pub data Connection : Type 0 where
  to_statsd to_storage to_pubsub to_tasks : Connection

pub data Event : Type 0 where
  clock_read : Instant → Event
  bytes_drawn : List ℕ → Event
  metric_sent : Metric → Event
  message_published : (topic : String) → Message → Option Error → Event
  topic_checked : (topic : String) → Result Error Bool → Event
  task_created : Task → Option Error → Event
  object_written : (path : String) → List ℕ → Option Error → Event
  topic_stopped : (topic : String) → Event
  connection_closed : Connection → Option Error → Event
  serving_status_set : (serving : Bool) → Event
  http_shut_down : Option Error → Event
  grpc_stopped : Event

-- `producers` and `job_types` are the two maps of the store that the process holds.
pub record World : Type 0 where
  pub history : List Event
  pub producers : Map Producer
  pub job_types : Map JobType

abbrev pub M : Type 0 → Type 0
M A = World → A × World

infixl 5 ◌>>=◌ ◌>>◌
abbrev pub ◌>>=◌ : {A B : Type 0} → M A → (A → M B) → M B
◌>>=◌ m f w = let (a, w') = m w in f a w'

abbrev pub ◌>>◌ : {A B : Type 0} → M A → M B → M B
◌>>◌ m k w = let (_, w') = m w in k w'

abbrev pub pure : {A : Type 0} → A → M A
pure a w = (a, w)

-- The clock and crypto/rand.
pub record Env : Type 0 where
  pub clock : List Event → Instant
  pub entropy : List Event → ℕ → List ℕ

unfoldable pub emit : Event → M (Unit {0})
emit e w = (tt, record w { history = e ∷ w.history })

-- A statsd call; the code drops its error.
unfoldable pub send : Metric → M (Unit {0})
unfolding emit
send m = emit (metric_sent m)

-- Close of a client, whose error is a function of the history.
unfoldable pub close_connection : Connection → (List Event → Option Error) → M (Option Error)
unfolding emit
close_connection connection answer w =
    let error = answer w.history in (error, (emit (connection_closed connection error) w).1)

module _ (env : Env) where
  -- time.Now()
  unfoldable pub now : M Instant
  unfolding emit
  now w = let t = env.clock w.history in (t, (emit (clock_read t) w).1)

  -- rand.Read of n bytes, which does not fail
  unfoldable pub draw : ℕ → M (List ℕ)
  unfolding emit
  draw n w = let bytes = env.entropy w.history n in (bytes, (emit (bytes_drawn bytes) w).1)

  -- time.Since(t)
  unfoldable pub since : Instant → M Duration
  unfolding now
  since t = do n ← now; pure (sub_time n t)

  -- time.Until(t)
  unfoldable pub until : Instant → M Duration
  unfolding now
  until t = do n ← now; pure (sub_time t n)

-- The event is in the history.
abbrev pub Logged : Event → List Event → Type 0
Logged e history = (later : List Event) × (earlier : List Event) × (history ≡ later ++ e ∷ earlier)

-- The second history is the first with later events.
abbrev pub Extends : List Event → List Event → Type 0
Extends before after = (later : List Event) × (after ≡ later ++ before)

pub Extends-trans : (a b c : List Event) → Extends a b → Extends b c → Extends a c
Extends-trans a b c (l, p) (m, q) = (m ++ l, q ∙ ap (λ h. m ++ h) p ∙ sym (append_assoc m l a))

-- What is in a history stays there.
pub Logged-later : (e : Event) (a b : List Event) → Extends a b → Logged e a → Logged e b
Logged-later e a b (l, p) (later, earlier, q) =
    (l ++ later, earlier, p ∙ ap (λ h. l ++ h) q ∙ sym (append_assoc l later (e ∷ earlier)))
