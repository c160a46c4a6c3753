-- ===== src/Jack/Lifetime/Closings.antt =====
-- The connections that are closed in a history, and by an action (the deferred calls of cmd/jack/main.go).
use mathlib.Core.List.{append_assoc}
use jack_service.Common.{◌≡◌, refl, sym, ap, ◌∙◌, List, [], ◌∷◌, ◌++◌, Option}
use jack_service.Go.{Error}
use jack_service.World.{
  World, M, Event, ◌>>◌, Connection, connection_closed, topic_stopped, close_connection, pure,
}
use jack_service.Queue.PubSub.{Topics, stop_topics}

abbrev closing_of : Event → List Connection
closing_of (connection_closed c o) = c ∷ []
closing_of e = []

-- The connections that are closed in a history, the last one first.
abbrev pub closings : List Event → List Connection
closings [] = []
closings (e ∷ history) = closing_of e ++ closings history

closings_append : (a b : List Event) → closings (a ++ b) ≡ closings a ++ closings b
closings_append [] b = refl
closings_append (e ∷ a) b =
    ap (λ x. closing_of e ++ x) (closings_append a b)
    ∙ sym (append_assoc (closing_of e) (closings a) (closings b))

-- The later history has just these closings.
abbrev pub Closed : List Connection → List Event → List Event → Type 0
Closed cs before after = (later : List Event) × (after ≡ later ++ before) × (closings later ≡ cs)

Closed-trans :
    (cs ds : List Connection) (a b c : List Event)
    → Closed cs a b
    → Closed ds b c
    → Closed (ds ++ cs) a c
Closed-trans cs ds a b c (l, p, x) (m, q, y) = (
  m ++ l,
  q ∙ ap (λ h. m ++ h) p ∙ sym (append_assoc m l a),
  closings_append m l ∙ ap (λ z. z ++ closings l) y ∙ ap (λ z. ds ++ z) x,
)

-- The action closes just these.
pub record Closes {A : Type 0} (action : M A) (cs : List Connection) : Type 0 where
  pub closed : (w : World) → Closed cs w.history (action w).1.history

pub then-Closes :
    {A B : Type 0} (first : M A) (second : M B) (cs ds : List Connection)
    → Closes first cs
    → Closes second ds
    → Closes (first >> second) (ds ++ cs)
then-Closes first second cs ds f s = record {
  closed = λ w.
      let v = (first w).1 in
      Closed-trans cs ds w.history v.history (second v).1.history (f.closed w) (s.closed v);
}

pub one-Closes :
    (c : Connection) (answer : List Event → Option Error)
    → Closes (close_connection c answer) (c ∷ [])
unfolding close_connection
one-Closes c answer = record {
  closed = λ w. (connection_closed c (answer w.history) ∷ [], refl, refl);
}

pub none-Closes : {A : Type 0} (a : A) → Closes (pure a) []
none-Closes a = record { closed = λ w. ([], refl, refl) }

pub stop_topics-Closes : (topics : Topics) → Closes (stop_topics topics) []
unfolding stop_topics
stop_topics-Closes [] = none-Closes tt
stop_topics-Closes ((p, topic) ∷ topics) = record {
  closed = λ w.
      Closed-trans [] [] w.history (topic_stopped topic ∷ w.history) _
        (topic_stopped topic ∷ [], refl, refl) ((stop_topics-Closes topics).closed _);
}
