-- ===== src/Queue/PubSub/Topics.antt =====
-- Which topic a job is published to, for a backend that `NewPubSubBackend` of internal/queue/pubsub.go
-- has made.
use jack_service.Common.{
  String, false, ◌≡◌, refl, sym, ap, ◌∙◌, [], Option, none, some, Result, ok, err, if◌then◌else◌,
  Bool-cases, Option-cases, inl, inr, arith,
}
use jack_service.Common.Int.{eqb_ℤ, eqb_ℤ_iff}
use jack_service.Common.Text.{◌==◌, ◌+++◌}
use jack_service.Go.{Error, text}
use jack_service.Queue.{
  Priority, priority_text, priority_high, priority_medium, priority_low, priority_immediate,
}
use jack_service.Queue.PubSub.{
  PubSubConfig, PubSubBackend, Topics, topic_at, configured, new_pubsub_backend, topic_for,
}

-- The name that the configuration gives for a priority, "" for none.
abbrev name_for : PubSubConfig → Priority → String
name_for cfg p =
    if eqb_ℤ priority_immediate p
    then cfg.immediate_topic
    else if eqb_ℤ priority_low p
    then cfg.low_topic
    else if eqb_ℤ priority_medium p
    then cfg.medium_topic
    else if eqb_ℤ priority_high p
    then cfg.high_topic
    else ""

abbrev named : String → Option String
named name = if name == "" then none else some name

abbrev choice : Priority → Option String → Option String → Result Error String
choice p own medium = elim own [
  | some topic ↦ ok topic
  | none ↦ elim medium [
    | some topic ↦ ok topic
    | none ↦ err (text ("pubsub: no topic configured for priority " +++ priority_text p))
  ]
]

-- The topic of the priority, or that of the medium priority, or an error.
abbrev pub topic_of : PubSubConfig → Priority → Result Error String
topic_of cfg p = choice p (named (name_for cfg p)) (named cfg.medium_topic)

topic_at-none : (p : Priority) → topic_at p [] ≡ none
unfolding topic_at
topic_at-none p = refl

topic_at-configured_same :
    (p : Priority) (name : String) (topics : Topics)
    → topic_at p topics ≡ none
    → topic_at p (configured p name topics) ≡ named name
unfolding configured topic_at
topic_at-configured_same p name topics h = elim (Bool-cases (name == "")) [
  | inl empty ↦ rw empty h
  | inr full ↦ rw (full, (eqb_ℤ_iff p p).1 refl) refl
]

topic_at-configured_other :
    (p q : Priority) (name : String) (topics : Topics)
    → eqb_ℤ q p ≡ false
    → topic_at p (configured q name topics) ≡ topic_at p topics
unfolding configured topic_at
topic_at-configured_other p q name topics h = elim (Bool-cases (name == "")) [
  | inl empty ↦ rw empty refl
  | inr full ↦ rw (full, h) refl
]

abbrev topics_of : PubSubConfig → Topics
topics_of cfg = configured priority_immediate cfg.immediate_topic (
    configured priority_low cfg.low_topic
      (configured priority_medium cfg.medium_topic (configured priority_high cfg.high_topic [])))

topic_at-configured :
    (p q : Priority) (name later : String) (topics : Topics)
    → topic_at p topics ≡ named later
    → (p ≡ q → named later ≡ none)
    → topic_at p (configured q name topics) ≡ named (if eqb_ℤ q p then name else later)
topic_at-configured p q name later topics h absent = elim (Bool-cases (eqb_ℤ q p)) [
  | inl hit ↦
      let same : p ≡ q = sym ((eqb_ℤ_iff q p).0 hit) in
      rw hit (
        rw same (
          topic_at-configured_same q name topics
            (ap (λ x. topic_at x topics) (sym same) ∙ h ∙ absent same)))
  | inr miss ↦ rw miss (topic_at-configured_other p q name topics miss ∙ h)
]

topic_at-topics_of :
    (cfg : PubSubConfig) (p : Priority) → topic_at p (topics_of cfg) ≡ named (name_for cfg p)
topic_at-topics_of cfg p =
    topic_at-configured p priority_immediate _ _ _
      (topic_at-configured p priority_low _ _ _
        (topic_at-configured p priority_medium _ _ _
          (topic_at-configured p priority_high _ "" _ (topic_at-none p) (λ e. refl))
          (λ e. rw e refl))
        (λ e. rw e refl))
      (λ e. rw e refl)

topics_of_backend :
    (client : Option Error) (cfg : PubSubConfig) (b : PubSubBackend)
    → new_pubsub_backend client cfg ≡ ok b
    → b.topics ≡ topics_of cfg
unfolding new_pubsub_backend
topics_of_backend client cfg b h = elim (Bool-cases (cfg.project == "")) [
  | inl missing ↦ absurd (ground arith)
  | inr given ↦ elim (Option-cases cfg.adapter) [
    | inl missing ↦ absurd (ground arith)
    | inr (adapter, e) ↦ elim (Option-cases client) [
      | inl fine ↦ ground arith
      | inr (x, bad) ↦ absurd (ground arith)
    ]
  ]
]

-- A backend that NewPubSubBackend has made publishes a job of a priority to the topic that the
-- configuration names for it; where it names none, to the topic of the medium priority; and where that has
-- no name either, the job is refused.
pub topic_for-topic_of :
    (client : Option Error) (cfg : PubSubConfig) (b : PubSubBackend) (p : Priority)
    → new_pubsub_backend client cfg ≡ ok b
    → topic_for b p ≡ topic_of cfg p
unfolding topic_for
topic_for-topic_of client cfg b p h =
    let topics = topics_of_backend client cfg b h in
    ap (λ ts. choice p (topic_at p ts) (topic_at priority_medium ts)) topics
    ∙ ap (λ own. choice p own (topic_at priority_medium (topics_of cfg))) (topic_at-topics_of cfg p)
    ∙ ap (choice p (named (name_for cfg p))) (topic_at-topics_of cfg priority_medium)
