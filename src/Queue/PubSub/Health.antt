-- ===== src/Queue/PubSub/Health.antt =====
-- `Health` of internal/queue/pubsub.go on every outcome.
use jack_service.Common.{
  ℕ, String, true, false, ◌≡◌, List, Option, none, some, ok, err, All, get_elem?,
}
use jack_service.Common.Text.{◌+++◌}
use jack_service.Go.{Error, text, wrapped}
use jack_service.World.{World, Event, topic_checked, Logged}
use jack_service.Queue.{Priority, priority_text}
use jack_service.Queue.PubSub.{Topics}

-- What the answer of Health says of the topics that it goes through: all have been found; or the check of one has
-- failed, or one does not exist, and the error names it.
pub data Verdict (topics : Topics) (history : List Event) : Option Error → Type 0 where
  healthy :
      All (λ t. Logged (topic_checked t.1 (ok true)) history) topics → Verdict topics history none
  unanswered :
      (i : ℕ) (p : Priority) (topic : String) (e : Error)
      → get_elem? topics i ≡ some (p, topic)
      → Logged (topic_checked topic (err e)) history
      → Verdict topics history
          (some (wrapped ("pubsub: health check for " +++ (priority_text p +++ " topic: ")) e ""))
  absent :
      (i : ℕ) (p : Priority) (topic : String)
      → get_elem? topics i ≡ some (p, topic)
      → Logged (topic_checked topic (ok false)) history
      → Verdict topics history (
          some (
            text (
              "pubsub: topic "
              +++ (topic +++ (" for " +++ (priority_text p +++ " does not exist"))))))
