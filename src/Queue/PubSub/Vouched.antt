-- ===== src/Queue/PubSub/Vouched.antt =====
-- What the two ways to enqueue of internal/queue/pubsub.go vouch for.
use jack_service.World.{Env, Extends-trans}
use jack_service.Queue.Contract.{Vouches, BulkVouches, Paired-at}
use jack_service.Queue.PubSub.{
  Client, PubSubBackend, settle_all, hand_over_all, enqueue, enqueue_bulk,
}
use jack_service.Queue.PubSub.Bulk.{
  IsAdapter, Delivered, Delivered-later, hand_over_all-Extends, count_published-Extends,
  enqueue_bulk-Delivered,
}
use jack_service.Queue.PubSub.Delivery.{enqueue-Logged}

module _ (env : Env) (client : Client) (b : PubSubBackend) where
  pub pubsub_backend-Vouches : Vouches (enqueue env client b) (Delivered env client b)
  pubsub_backend-Vouches = record {
    vouched = λ job w h.
        let (topic, body, known, good, logged) = enqueue-Logged env client b job w h in
        (topic, body, w, known, good, logged);
    lasting = Delivered-later env client b;
  }

  pub pubsub_backend-BulkVouches :
      IsAdapter b.adapter → BulkVouches (enqueue_bulk env client b) (Delivered env client b)
  unfolding enqueue_bulk
  pubsub_backend-BulkVouches is = record {
    vouched = λ jobs w job r paired fine named.
        let (i, at, at') = Paired-at paired in
        enqueue_bulk-Delivered env client b is jobs w i job r at at' fine;
    appends = λ jobs w.
        let (pending, v) = hand_over_all env client b jobs w in
        Extends-trans w.history v.history _ (hand_over_all-Extends env client b is jobs w)
          (count_published-Extends jobs (settle_all jobs pending) v);
    lasting = Delivered-later env client b;
  }
