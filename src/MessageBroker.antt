-- ===== src/MessageBroker.antt =====
-- src/message_broker.h and src/message_broker.cpp: the queues of segment messages, one for each
-- subscriber, and the thread that posts them to a web hook.
--
-- The locks make each operation one step. An unordered map is an association list in its iteration
-- order. `make_hash` is MakeHash, and `now` is what Now() reads during the call. The wait of
-- `removeSubscriber` for its thread is taken to have ended.
pub mod Queues
pub mod Delivery
pub mod WebHook
use Prim.Native.String.{String}
use text.Mathlib.Text.{◌==◌ as str_eq}
use openset.Prelude.{
  ℕ, zero, suc, ◌+◌, ◌-◌, ◌*◌, Bool, true, false, not, ◌&&◌, ◌||◌, List, [], ◌∷◌, ◌++◌, map, Option,
  none, some, ltb, leb, ◌==◌, if◌then◌else◌, length,
}

pub data State : Type 0 where
  entered exited : State

pub record Message : Type 0 where
  pub stamp : ℕ
  pub segment_id : ℕ
  pub uuid : String
  pub state : State

abbrev pub Queue : Type 0
Queue = List Message

-- `Broker_s`, without its lock and the two flags of its shutdown, which stand only until
-- `removeSubscriber` erases it.
pub record Subscriber : Type 0 where
  pub host : String
  pub port : ℕ
  pub path : String
  pub trigger_id : ℕ
  pub subscriber_id : ℕ
  pub hold : ℕ

-- Segment name and subscriber name.
abbrev pub Key : Type 0
Key = String × String

abbrev pub key_eq : Key → Key → Bool
key_eq (a, b) (c, d) = str_eq a c && str_eq b d

abbrev pub Subscriptions : Type 0
Subscriptions = List (ℕ × Queue)

pub record Broker : Type 0 where
  pub queue_map : List (ℕ × Subscriptions)
  pub subscribers : List (Key × Subscriber)

module _ {ℓ} {V : Type ℓ} where
  unfoldable pub lookup_id : ℕ → List (ℕ × V) → Option V
  lookup_id k [] = none
  lookup_id k ((j, v) ∷ m) = if j == k then some v else lookup_id k m

  unfoldable pub adjust_id : ℕ → (V → V) → List (ℕ × V) → List (ℕ × V)
  adjust_id k f [] = []
  adjust_id k f ((j, v) ∷ m) = if j == k then (j, f v) ∷ m else (j, v) ∷ adjust_id k f m

  -- `if (!m.count(k)) m.emplace(k, v)`.
  unfoldable pub ensure_id : ℕ → V → List (ℕ × V) → List (ℕ × V)
  ensure_id k v [] = (k, v) ∷ []
  ensure_id k v ((j, w) ∷ m) = if j == k then (j, w) ∷ m else (j, w) ∷ ensure_id k v m

  unfoldable pub lookup_key : Key → List (Key × V) → Option V
  lookup_key k [] = none
  lookup_key k ((j, v) ∷ m) = if key_eq j k then some v else lookup_key k m

  unfoldable pub assign_key : Key → V → List (Key × V) → List (Key × V)
  assign_key k v [] = []
  assign_key k v ((j, w) ∷ m) = if key_eq j k then (j, v) ∷ m else (j, w) ∷ assign_key k v m

  unfoldable pub erase_key : Key → List (Key × V) → List (Key × V)
  erase_key k [] = []
  erase_key k ((j, v) ∷ m) = if key_eq j k then m else (j, v) ∷ erase_key k m

-- `q->push(m)` for each queue of the segment.
unfoldable pub push_one : ℕ → Message → List (ℕ × Subscriptions) → List (ℕ × Subscriptions)
push_one seg m [] = []
push_one seg m ((id, subs) ∷ qm) =
    (id, if id == seg then map (λ (s, q). (s, q ++ m ∷ [])) subs else subs) ∷ push_one seg m qm

unfoldable pub push_all : ℕ → List Message → List (ℕ × Subscriptions) → List (ℕ × Subscriptions)
unfolding push_one
push_all seg [] qm = qm
push_all seg (m ∷ ms) qm = push_all seg ms (push_one seg m qm)

-- `while (!q.empty() && q.front().stamp < expireLine) q.pop()`.
unfoldable pub drop_expired : ℕ → Queue → Queue
drop_expired line [] = []
drop_expired line (m ∷ q) =
    let rest = drop_expired line q in if ltb m.stamp line then rest else m ∷ q

unfoldable pub clean_one : ℕ → Subscriber → List (ℕ × Subscriptions) → List (ℕ × Subscriptions)
unfolding adjust_id drop_expired
clean_one now s qm =
    adjust_id s.trigger_id (adjust_id s.subscriber_id (drop_expired (now - s.hold))) qm

unfoldable pub clean_each :
    ℕ → List (Key × Subscriber) → List (ℕ × Subscriptions) → List (ℕ × Subscriptions)
unfolding clean_one
clean_each now [] qm = qm
clean_each now ((k, s) ∷ subs) qm = clean_each now subs (clean_one now s qm)

unfoldable pub back_clean : ℕ → Broker → Broker
unfolding clean_each
back_clean now b = record b { queue_map = clean_each now b.subscribers b.queue_map }

unfoldable pub push : ℕ → Broker → ℕ → List Message → Broker
unfolding push_all back_clean
push now b seg messages =
    back_clean now (record b { queue_map = push_all seg messages b.queue_map })

-- `run`, called by a timer.
unfoldable pub run : ℕ → Broker → Broker
unfolding back_clean
run now b = back_clean now b

-- The queue that two ids lead to.
unfoldable pub queue_of : List (ℕ × Subscriptions) → ℕ → ℕ → Option Queue
unfolding lookup_id
queue_of qm trigger subscriber = elim (lookup_id trigger qm) [
  | none ↦ none
  | some subs ↦ lookup_id subscriber subs
]

-- `while (s->second.size() && count < max)`: the messages taken, and the queue that is left.
unfoldable pub take_front : ℕ → Queue → List Message × Queue
take_front zero q = ([], q)
take_front (suc n) [] = ([], [])
take_front (suc n) (m ∷ q) = let (taken, rest) = take_front n q in (m ∷ taken, rest)

unfoldable pub pop : Broker → Key → ℕ → List Message × Broker
unfolding lookup_key queue_of adjust_id take_front
pop b key max = elim (lookup_key key b.subscribers) [
  | none ↦ ([], b)
  | some s ↦ elim (queue_of b.queue_map s.trigger_id s.subscriber_id) [
    | none ↦ ([], b)
    | some q ↦
        let (taken, rest) = take_front max q in
        (
          taken,
          record b {
            queue_map = adjust_id s.trigger_id (adjust_id s.subscriber_id (λ _. rest)) b.queue_map;
          },
        )
  ]
]

unfoldable pub size : Broker → Key → ℕ
unfolding lookup_key queue_of
size b key = elim (lookup_key key b.subscribers) [
  | none ↦ 0
  | some s ↦ elim (queue_of b.queue_map s.trigger_id s.subscriber_id) [
    | none ↦ 0
    | some q ↦ length q
  ]
]

-- The thread that is started for a new subscriber is in WebHook.
unfoldable pub register_subscriber : (String → ℕ) → Broker → Key → String → ℕ → String → ℕ → Broker
unfolding lookup_key assign_key ensure_id adjust_id
register_subscriber make_hash b key host port path hold = elim (lookup_key key b.subscribers) [
  | some s ↦ record b {
    subscribers =
        assign_key key (record s { hold = hold; host = host; port = port; path = path })
          b.subscribers;
  }
  | none ↦
      let info : Subscriber = record {
        host = host;
        port = port;
        path = path;
        trigger_id = make_hash key.0;
        subscriber_id = make_hash key.1;
        hold = hold;
      } in
      record {
        subscribers = (key, info) ∷ b.subscribers;
        queue_map =
            adjust_id info.trigger_id (ensure_id info.subscriber_id [])
              (ensure_id info.trigger_id [] b.queue_map);
      }
]

unfoldable pub remove_subscriber : Broker → Key → Broker × Bool
unfolding lookup_key erase_key
remove_subscriber b key = elim (lookup_key key b.subscribers) [
  | none ↦ (b, false)
  | some s ↦ (record b { subscribers = erase_key key b.subscribers }, true)
]
