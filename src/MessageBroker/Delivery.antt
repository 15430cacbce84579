-- ===== src/MessageBroker/Delivery.antt =====
-- `push`, `pop`, `size`, `registerSubscriber` and `removeSubscriber` on the queue of a subscriber.
use openset.MessageBroker.Queues.{
  map_queue, found_or, queue_of-adjust, queue_of-ensure, queue_of-push_all, IsUnclaimed,
  queue_of-clean_unclaimed, IsAlone, queue_of-clean_alone,
}
use Prim.Native.String.{String}
use openset.MessageBroker.{
  Message, Queue, Subscriber, Key, Broker, drop_expired, queue_of, take_front, push, push_all, pop,
  size, register_subscriber, remove_subscriber, lookup_key, erase_key,
}
use openset.Prelude.{
  ℕ, zero, suc, ◌-◌, ◌≤◌, ◌<◌, ◌≡◌, refl, ap, ◌∙◌, ◌&&◌, List, [], ◌∷◌, ◌++◌, none, some, ltb, ◌==◌,
  if◌then◌else◌, length, min, arith, inl, inr, Bool-cases,
}

-- `push` puts the messages, in order, at the end of the queue of a subscriber to the segment, then
-- drops what is older than its hold time from the front; the queue of a subscriber to another
-- segment is only cleaned. The subscriber shares its two ids with no other.
pub queue_of-push :
    (now : ℕ) (b : Broker) (seg : ℕ) (ms : List Message) (sub : Subscriber)
    → IsAlone sub b.subscribers
    → queue_of (push now b seg ms).queue_map sub.trigger_id sub.subscriber_id
      ≡ map_queue (drop_expired (now - sub.hold)) (
          if sub.trigger_id == seg
          then map_queue (λ q. q ++ ms) (queue_of b.queue_map sub.trigger_id sub.subscriber_id)
          else queue_of b.queue_map sub.trigger_id sub.subscriber_id)
unfolding push
queue_of-push now b seg ms sub alone =
    queue_of-clean_alone now sub b.subscribers (push_all seg ms b.queue_map) alone
    ∙ ap (map_queue (drop_expired (now - sub.hold)))
        (queue_of-push_all seg ms b.queue_map sub.trigger_id sub.subscriber_id)

abbrev pub AreExpired : ℕ → List Message → Type 0
AreExpired line [] = Unit {0}
AreExpired line (m ∷ ms) = (m.stamp < line) × AreExpired line ms

abbrev pub IsFresh : ℕ → Queue → Type 0
IsFresh line [] = Unit {0}
IsFresh line (m ∷ q) = line ≤ m.stamp

-- The clean-up of a queue takes messages from its front only, only expired ones, and stops at the
-- first that is not.
pub drop_expired_lem :
    (line : ℕ) (q : Queue)
    → (dropped : List Message) × (q ≡ dropped ++ drop_expired line q)
      × AreExpired line dropped
      × IsFresh line (drop_expired line q)
unfolding drop_expired
drop_expired_lem line [] = ([], refl, tt, tt)
drop_expired_lem line (m ∷ q) = elim (Bool-cases (ltb m.stamp line)) [
  | inl old ↦
      let (dropped, split, all_old, fresh) = drop_expired_lem line q in
      rw old (m ∷ dropped, ap (◌∷◌ m) split, (ground arith, all_old), fresh)
  | inr new ↦ rw new ([], refl, tt, ground arith)
]

take_front_lem :
    (n : ℕ) (q : Queue)
    → ((take_front n q).0 ++ (take_front n q).1 ≡ q)
      × (length (take_front n q).0 ≡ min n (length q))
unfolding take_front
take_front_lem zero q = (refl, omega arith)
take_front_lem (suc n) [] = (refl, omega arith)
take_front_lem (suc n) (m ∷ q) =
    let (whole, count) = take_front_lem n q in (ap (◌∷◌ m) whole, omega (arith, count))

-- `pop` takes the oldest messages of the subscriber's queue, `max` of them or all, and leaves the
-- rest in order. Every other queue stays as it was.
pub pop_lem :
    (b : Broker) (key : Key) (max : ℕ) (sub : Subscriber) (q : Queue)
    → lookup_key key b.subscribers ≡ some sub
    → queue_of b.queue_map sub.trigger_id sub.subscriber_id ≡ some q
    → (rest : Queue) × ((pop b key max).0 ++ rest ≡ q)
      × (length (pop b key max).0 ≡ min max (length q))
      × ((t s : ℕ)
          → queue_of (pop b key max).1.queue_map t s ≡ (
              if sub.trigger_id == t && sub.subscriber_id == s
              then some rest
              else queue_of b.queue_map t s))
unfolding pop
pop_lem b key max sub q known present =
    rw (known, pop, present, pop)
      (
        (take_front max q).1,
        (take_front_lem max q).0,
        (take_front_lem max q).1,
        λ t s.
            queue_of-adjust b.queue_map sub.trigger_id sub.subscriber_id t s
              (λ _. (take_front max q).1)
            ∙ ground (arith, present),
      )

-- `size` is the number of messages that wait for the subscriber.
pub size_lem :
    (b : Broker) (key : Key) (sub : Subscriber) (q : Queue)
    → lookup_key key b.subscribers ≡ some sub
    → queue_of b.queue_map sub.trigger_id sub.subscriber_id ≡ some q
    → size b key ≡ length q
unfolding size
size_lem b key sub q known present = rw (known, size, present, size)

-- A new subscriber gets an empty queue under the hashes of its two names, or the queue that
-- is there already, with the messages that it holds.
pub queue_of-register_subscriber :
    (make_hash : String → ℕ) (b : Broker) (key : Key) (host : String) (port : ℕ) (path : String)
    (hold : ℕ)
    → lookup_key key b.subscribers ≡ none
    → queue_of
        (register_subscriber make_hash b key host port path hold).queue_map
        (make_hash key.0)
        (make_hash key.1)
      ≡ some (found_or [] (queue_of b.queue_map (make_hash key.0) (make_hash key.1)))
unfolding register_subscriber
queue_of-register_subscriber make_hash b key host port path hold unknown =
    rw (unknown, register_subscriber)
      (queue_of-ensure b.queue_map (make_hash key.0) (make_hash key.1))

-- `removeSubscriber` leaves the queue behind: where no other subscriber has its ids, messages of
-- the segment still go to it, and none is ever dropped.
pub push-remove_subscriber :
    (now : ℕ) (b : Broker) (key : Key) (sub : Subscriber) (ms : List Message)
    → lookup_key key b.subscribers ≡ some sub
    → IsUnclaimed sub.trigger_id sub.subscriber_id (erase_key key b.subscribers)
    → queue_of
        (push now (remove_subscriber b key).0 sub.trigger_id ms).queue_map
        sub.trigger_id
        sub.subscriber_id
      ≡ map_queue (λ q. q ++ ms) (queue_of b.queue_map sub.trigger_id sub.subscriber_id)
unfolding remove_subscriber push
push-remove_subscriber now b key sub ms known others =
    rw (known, remove_subscriber)
      (queue_of-clean_unclaimed now (erase_key key b.subscribers)
          (push_all sub.trigger_id ms b.queue_map) sub.trigger_id sub.subscriber_id others
        ∙ queue_of-push_all sub.trigger_id ms b.queue_map sub.trigger_id sub.subscriber_id
        ∙ ground arith)
