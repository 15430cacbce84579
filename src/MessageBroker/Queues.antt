-- ===== src/MessageBroker/Queues.antt =====
-- The queue that two ids lead to, under each operation on the queue map.
use mathlib.Core.List.{append-nil, append_assoc}
use openset.MessageBroker.{
  Message, Queue, Subscriber, Key, Subscriptions, lookup_id, adjust_id, ensure_id, push_one,
  push_all, drop_expired, clean_one, clean_each, queue_of,
}
use openset.Prelude.{
  ℕ, ◌-◌, ◌≡◌, refl, ap, ◌∙◌, false, ◌&&◌, List, [], ◌∷◌, ◌⊎◌, ◌++◌, map, Option, none, some, ◌==◌,
  if◌then◌else◌, arith, inl, inr, Option-cases,
}

abbrev pub map_queue : (Queue → Queue) → Option Queue → Option Queue
map_queue f none = none
map_queue f (some q) = some (f q)

module _ {ℓ} {V : Type ℓ} where
  abbrev pub map_found : (V → V) → Option V → Option V
  map_found f none = none
  map_found f (some v) = some (f v)

  lookup_id-adjust_id :
      (j k : ℕ) (f : V → V) (m : List (ℕ × V))
      → lookup_id j (adjust_id k f m)
        ≡ (if k == j then map_found f (lookup_id j m) else lookup_id j m)
  unfolding lookup_id adjust_id
  lookup_id-adjust_id j k f [] = ground arith
  lookup_id-adjust_id j k f ((i, v) ∷ m) = ground (arith, lookup_id-adjust_id j k f m)

  abbrev pub found_or : V → Option V → V
  found_or v none = v
  found_or v (some w) = w

  lookup_id-ensure_id :
      (j k : ℕ) (v : V) (m : List (ℕ × V))
      → lookup_id j (ensure_id k v m)
        ≡ (if k == j then some (found_or v (lookup_id j m)) else lookup_id j m)
  unfolding lookup_id ensure_id
  lookup_id-ensure_id j k v [] = ground arith
  lookup_id-ensure_id j k v ((i, w) ∷ m) = ground (arith, lookup_id-ensure_id j k v m)

pub queue_of-adjust :
    (qm : List (ℕ × Subscriptions)) (t s t' s' : ℕ) (f : Queue → Queue)
    → queue_of (adjust_id t (adjust_id s f) qm) t' s'
      ≡ (if t == t' && s == s' then map_queue f (queue_of qm t' s') else queue_of qm t' s')
unfolding queue_of
queue_of-adjust qm t s t' s' f = elim (Option-cases (lookup_id t' qm)) [
  | inl absent ↦ ground (arith, absent, lookup_id-adjust_id t' t (adjust_id s f) qm)
  | inr (subs, present) ↦
      ground (
        arith,
        present,
        lookup_id-adjust_id t' t (adjust_id s f) qm,
        lookup_id-adjust_id s' s f subs,
      )
]

pub queue_of-ensure :
    (qm : List (ℕ × Subscriptions)) (t s : ℕ)
    → queue_of (adjust_id t (ensure_id s []) (ensure_id t [] qm)) t s
      ≡ some (found_or [] (queue_of qm t s))
unfolding queue_of
queue_of-ensure qm t s = elim (Option-cases (lookup_id t qm)) [
  | inl absent ↦ ground (
    arith,
    absent,
    lookup_id-adjust_id t t (ensure_id s []) (ensure_id t [] qm),
    lookup_id-ensure_id {V = Subscriptions} t t [] qm,
    lookup_id-ensure_id {V = Queue} s s [] [],
  )
  | inr (subs, present) ↦ ground (
    arith,
    present,
    lookup_id-adjust_id t t (ensure_id s []) (ensure_id t [] qm),
    lookup_id-ensure_id {V = Subscriptions} t t [] qm,
    lookup_id-ensure_id {V = Queue} s s [] subs,
  )
]

lookup_id-append :
    (m : Message) (s : ℕ) (subs : Subscriptions)
    → lookup_id s (map (λ (i, q). (i, q ++ m ∷ [])) subs)
      ≡ map_queue (λ q. q ++ m ∷ []) (lookup_id s subs)
unfolding lookup_id
lookup_id-append m s [] = refl
lookup_id-append m s ((i, q) ∷ subs) = ground (arith, lookup_id-append m s subs)

queue_of-push_one :
    (seg : ℕ) (m : Message) (qm : List (ℕ × Subscriptions)) (t s : ℕ)
    → queue_of (push_one seg m qm) t s
      ≡ (if t == seg then map_queue (λ q. q ++ m ∷ []) (queue_of qm t s) else queue_of qm t s)
unfolding queue_of push_one lookup_id
queue_of-push_one seg m [] t s = ground arith
queue_of-push_one seg m ((id, subs) ∷ qm) t s =
    ground (arith, lookup_id-append m s subs, queue_of-push_one seg m qm t s)

map_queue-append :
    (m : Message) (ms : List Message) (q : Option Queue)
    → map_queue (λ q. q ++ ms) (map_queue (λ q. q ++ m ∷ []) q) ≡ map_queue (λ q. q ++ m ∷ ms) q
map_queue-append m ms none = refl
map_queue-append m ms (some q) = ap some (append_assoc q (m ∷ []) ms)

map_queue-nil : (q : Option Queue) → map_queue (λ q. q ++ []) q ≡ q
map_queue-nil none = refl
map_queue-nil (some q) = ap some (append-nil q)

-- The messages go, in order, to the end of each queue of the segment.
pub queue_of-push_all :
    (seg : ℕ) (ms : List Message) (qm : List (ℕ × Subscriptions)) (t s : ℕ)
    → queue_of (push_all seg ms qm) t s
      ≡ (if t == seg then map_queue (λ q. q ++ ms) (queue_of qm t s) else queue_of qm t s)
unfolding push_all
queue_of-push_all seg [] qm t s = ground (arith, map_queue-nil (queue_of qm t s))
queue_of-push_all seg (m ∷ ms) qm t s =
    queue_of-push_all seg ms (push_one seg m qm) t s
    ∙ ground (arith, queue_of-push_one seg m qm t s, map_queue-append m ms (queue_of qm t s))

queue_of-clean_one :
    (now : ℕ) (sub : Subscriber) (qm : List (ℕ × Subscriptions)) (t s : ℕ)
    → queue_of (clean_one now sub qm) t s ≡ (
        if sub.trigger_id == t && sub.subscriber_id == s
        then map_queue (drop_expired (now - sub.hold)) (queue_of qm t s)
        else queue_of qm t s)
unfolding clean_one
queue_of-clean_one now sub qm t s =
    queue_of-adjust qm sub.trigger_id sub.subscriber_id t s (drop_expired (now - sub.hold))

-- No subscriber of the list has the two ids.
abbrev pub IsUnclaimed : ℕ → ℕ → List (Key × Subscriber) → Type 0
IsUnclaimed t s [] = Unit {0}
IsUnclaimed t s ((k, sub) ∷ subs) =
    (sub.trigger_id == t && sub.subscriber_id == s ≡ false) × IsUnclaimed t s subs

pub queue_of-clean_unclaimed :
    (now : ℕ) (subs : List (Key × Subscriber)) (qm : List (ℕ × Subscriptions)) (t s : ℕ)
    → IsUnclaimed t s subs
    → queue_of (clean_each now subs qm) t s ≡ queue_of qm t s
unfolding clean_each
queue_of-clean_unclaimed now [] qm t s h = refl
queue_of-clean_unclaimed now ((k, sub) ∷ subs) qm t s h =
    queue_of-clean_unclaimed now subs (clean_one now sub qm) t s h.1
    ∙ queue_of-clean_one now sub qm t s
    ∙ rw h.0

-- The list has this subscriber once, and no other with its ids.
abbrev pub IsAlone : Subscriber → List (Key × Subscriber) → Type 0
IsAlone sub [] = ⊥
IsAlone sub ((k, s) ∷ subs) =
    ((s ≡ sub) × IsUnclaimed sub.trigger_id sub.subscriber_id subs)
    ⊎ ((s.trigger_id == sub.trigger_id && s.subscriber_id == sub.subscriber_id ≡ false)
        × IsAlone sub subs)

-- The clean-up treats the queue of a subscriber by the hold time of that subscriber.
pub queue_of-clean_alone :
    (now : ℕ) (sub : Subscriber) (subs : List (Key × Subscriber)) (qm : List (ℕ × Subscriptions))
    → IsAlone sub subs
    → queue_of (clean_each now subs qm) sub.trigger_id sub.subscriber_id
      ≡ map_queue (drop_expired (now - sub.hold)) (queue_of qm sub.trigger_id sub.subscriber_id)
unfolding clean_each
queue_of-clean_alone now sub [] qm h = absurd h
queue_of-clean_alone now sub ((k, s) ∷ subs) qm (inl (e, others)) =
    queue_of-clean_unclaimed now subs (clean_one now s qm) sub.trigger_id sub.subscriber_id others
    ∙ queue_of-clean_one now s qm sub.trigger_id sub.subscriber_id
    ∙ rw e (ground arith)
queue_of-clean_alone now sub ((k, s) ∷ subs) qm (inr (apart, rest)) =
    queue_of-clean_alone now sub subs (clean_one now s qm) rest
    ∙ ap (map_queue (drop_expired (now - sub.hold)))
        (queue_of-clean_one now s qm sub.trigger_id sub.subscriber_id ∙ rw apart)
