-- ===== src/MessageBroker/WebHook.antt =====
-- `Broker_s::webHookThread`: one round of the loop of the thread that posts the messages of a
-- subscriber. The REST client is outside: a round is given whether the request failed. The sleeps
-- of the back off are the number of rounds of 250 ms that the thread waits.
use mathlib.Core.List.{append_assoc}
use openset.MessageBroker.Delivery.{pop_lem}
use openset.MessageBroker.{Message, Queue, Key, Subscriber, Broker, pop, size, lookup_key, queue_of}
use openset.Prelude.{
  ℕ, ◌+◌, ◌*◌, ◌≤◌, ◌≡◌, refl, ◌∙◌, Bool, true, false, List, [], ◌∷◌, ◌++◌, some, ltb, ◌==◌,
  if◌then◌else◌, length, arith, inl, inr, Bool-cases,
}

abbrev max_messages : ℕ
max_messages = 500

abbrev pub max_back_off : ℕ
max_back_off = 300 * 4

-- The variables of the thread, with the messages that the remote end has accepted.
pub record Hook : Type 0 where
  pub broker : Broker
  pub message_list : List Message
  pub back_off : ℕ
  pub delivered : List Message

abbrev refill : Key → Hook → Hook
refill key h =
    let taken = pop h.broker key max_messages in
    if length h.message_list == 0 then record h { message_list = taken.0; broker = taken.1 } else h

abbrev clamp : Hook → Hook
clamp h = if ltb max_back_off h.back_off then record h { back_off = max_back_off } else h

abbrev post : Key → Bool → Hook → Hook
post key failed h =
    if length h.message_list == 0
    then record h { back_off = 1 }
    else if failed
    then record h { back_off = h.back_off + 1 }
    else record h {
      message_list = [];
      back_off = if size h.broker key == 0 then 1 else 0;
      delivered = h.delivered ++ h.message_list;
    }

unfoldable pub web_hook_round : Key → Bool → Hook → Hook
web_hook_round key failed h = clamp (post key failed (refill key h))

-- Where the queue of the subscriber stands in the map.
pub record Serves (key : Key) (sub : Subscriber) (q : Queue) (b : Broker) : Type 0 where
  pub known : lookup_key key b.subscribers ≡ some sub
  pub present : queue_of b.queue_map sub.trigger_id sub.subscriber_id ≡ some q

empty_list : (ms : List Message) → length ms == 0 ≡ true → ms ≡ []
empty_list [] h = refl
empty_list (m ∷ ms) h = absurd (ground arith)

subscribers-pop : (b : Broker) (key : Key) (n : ℕ) → (pop b key n).1.subscribers ≡ b.subscribers
unfolding pop
subscribers-pop b key n = ground arith

-- Nothing is lost and nothing changes its place: delivered, held and waiting messages together.
abbrev pub Keeps : Key → Subscriber → Queue → Hook → Hook → Type 0
Keeps key sub q h h' =
    (rest : Queue) × Serves key sub rest h'.broker
    × (h'.delivered ++ (h'.message_list ++ rest) ≡ h.delivered ++ (h.message_list ++ q))

refill-Keeps :
    (key : Key) (sub : Subscriber) (q : Queue) (h : Hook)
    → Serves key sub q h.broker
    → Keeps key sub q h (refill key h)
refill-Keeps key sub q h serves = elim (Bool-cases (length h.message_list == 0)) [
  | inl empty ↦
      let (rest, whole, count, queues) =
        pop_lem h.broker key max_messages sub q serves.known serves.present in
      let none_held : h.message_list ≡ [] = empty_list h.message_list empty in
      rw (empty, none_held)
        (
          rest,
          record {
            known = ground (arith, serves.known, subscribers-pop h.broker key max_messages);
            present = queues sub.trigger_id sub.subscriber_id ∙ ground arith;
          },
          rw whole,
        )
  | inr held ↦ rw held (q, serves, refl)
]

post-Keeps :
    (key : Key) (sub : Subscriber) (q : Queue) (failed : Bool) (h : Hook)
    → Serves key sub q h.broker
    → Keeps key sub q h (post key failed h)
post-Keeps key sub q failed h serves = elim (Bool-cases (length h.message_list == 0)) [
  | inl empty ↦ rw empty (q, serves, refl)
  | inr held ↦ rw held (answered failed)
]
  where
    answered :
        (failed : Bool)
        → Keeps key sub q h (
            if failed then record h { back_off = h.back_off + 1 } else record h {
              message_list = [];
              back_off = if size h.broker key == 0 then 1 else 0;
              delivered = h.delivered ++ h.message_list;
            })
    answered true = (q, serves, refl)
    answered false = (q, serves, append_assoc h.delivered h.message_list q)

-- A round of the thread keeps the sequence of delivered, held and waiting messages, whether the
-- request fails or not, and holds the back off within its limit.
pub web_hook_round-Keeps :
    (key : Key) (sub : Subscriber) (q : Queue) (failed : Bool) (h : Hook)
    → Serves key sub q h.broker
    → Keeps key sub q h (web_hook_round key failed h)
      × ((web_hook_round key failed h).back_off ≤ max_back_off)
unfolding web_hook_round
web_hook_round-Keeps key sub q failed h serves =
    let (q₁, serves₁, same₁) = refill-Keeps key sub q h serves in
    let (q₂, serves₂, same₂) = post-Keeps key sub q₁ failed (refill key h) serves₁ in
    clamped (post key failed (refill key h)) (q₂, serves₂, same₂ ∙ same₁)
  where
    clamped :
        (h' : Hook)
        → Keeps key sub q h h'
        → Keeps key sub q h (clamp h') × ((clamp h').back_off ≤ max_back_off)
    clamped h' keeps = elim (Bool-cases (ltb max_back_off h'.back_off)) [
      | inl over ↦ rw over (keeps, omega arith)
      | inr within ↦ rw within (keeps, ground arith)
    ]
