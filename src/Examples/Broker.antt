-- ===== src/Examples/Broker.antt =====
-- The theorems about MessageBroker on a broker with one subscriber.
use openset.MessageBroker.{
  entered, Message, Queue, Subscriber, Key, Broker, push, pop, lookup_key, queue_of, erase_key,
  remove_subscriber,
}
use openset.MessageBroker.Queues.{map_queue}
use openset.MessageBroker.Delivery.{pop_lem, push-remove_subscriber}
use openset.MessageBroker.WebHook.{Hook, Keeps, web_hook_round, web_hook_round-Keeps, max_back_off}
use openset.Prelude.{
  ℕ, ◌≤◌, ◌≡◌, refl, false, [], ◌∷◌, ◌++◌, some, ◌==◌, if◌then◌else◌, length, min, ◌&&◌,
}

abbrev message : ℕ → Message
message stamp = record { stamp = stamp; segment_id = 4; uuid = "u"; state = entered }

abbrev key : Key
key = ("buyers", "mailer")

abbrev mailer : Subscriber
mailer = record {
  host = "host";
  port = 80;
  path = "/hook";
  trigger_id = 4;
  subscriber_id = 6;
  hold = 100;
}

abbrev waiting : Queue
waiting = message 50 ∷ message 170 ∷ []

abbrev broker : Broker
broker = record { queue_map = (4, (6, waiting) ∷ []) ∷ []; subscribers = (key, mailer) ∷ [] }

abbrev hook : Hook
hook = record { broker = broker; message_list = []; back_off = 0; delivered = [] }

pop_lem_example :
    (rest : Queue) × ((pop broker key 1).0 ++ rest ≡ waiting)
    × (length (pop broker key 1).0 ≡ min 1 (length waiting))
    × ((t s : ℕ)
        → queue_of (pop broker key 1).1.queue_map t s
          ≡ (if 4 == t && 6 == s then some rest else queue_of broker.queue_map t s))
unfolding lookup_key queue_of
pop_lem_example = pop_lem broker key 1 mailer waiting refl refl

-- After the subscriber is removed, a message of the segment still goes to its queue.
push-remove_subscriber_example :
    queue_of (push 999 (remove_subscriber broker key).0 4 (message 999 ∷ [])).queue_map 4 6
    ≡ map_queue (λ q. q ++ message 999 ∷ []) (queue_of broker.queue_map 4 6)
unfolding lookup_key erase_key
push-remove_subscriber_example =
    push-remove_subscriber 999 broker key mailer (message 999 ∷ []) refl tt

web_hook_round-Keeps_example :
    Keeps key mailer waiting hook (web_hook_round key false hook)
    × ((web_hook_round key false hook).back_off ≤ max_back_off)
unfolding lookup_key queue_of
web_hook_round-Keeps_example =
    web_hook_round-Keeps key mailer waiting false hook (record { known = refl; present = refl })
