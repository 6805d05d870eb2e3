-- ===== src/Eventbus.antt =====
-- internal/eventbus/bus.go: events for exporters, each with a bounded queue that nobody waits for.
-- A pointer to a subscription is its position in the list of all that were made, and `subscribed`
-- says whether the bus still has it; its channel is closed where it has not. `P` is the type of
-- the payloads, which the bus does not read.
pub mod Delivery
use netprobe_ir.Prelude.{
  ◌^◌, ◌%◌, ◌+◌, length, true, zero, [], ltb, suc, Bool, Bytes, false, map, not, ◌++◌, ◌==◌, ◌∷◌,
  List, Time, if◌then◌else◌, ℕ,
}

pub record Event (P : Type 0) : Type 0 where
  pub time : Time
  pub category : Bytes
  pub type_name : Bytes
  pub severity : Bytes
  pub interface : Bytes
  pub flow_id : Bytes
  pub packet_id : Bytes
  pub payload : P

pub record Subscription (P : Type 0) : Type 0 where
  pub queue : List (Event P)
  pub size : ℕ
  pub dropped : ℕ
  pub subscribed : Bool

module _ {P : Type 0} where
  -- the item at a position is exchanged
  pub update_at :
      (Subscription P → Subscription P) → ℕ → List (Subscription P) → List (Subscription P)
  update_at f i [] = []
  update_at f zero (s ∷ ss) = f s ∷ ss
  update_at f (suc i) (s ∷ ss) = s ∷ update_at f i ss

  -- a size that is not positive is 0
  pub subscribe : ℕ → List (Subscription P) → List (Subscription P)
  subscribe n bus =
      bus
      ++ (record { queue = []; size = if n == 0 then 1024 else n; dropped = 0; subscribed = true })
        ∷ []

  pub unsubscribe : ℕ → List (Subscription P) → List (Subscription P)
  unfolding update_at
  unsubscribe = update_at (λ s. record s { subscribed = false })

  -- the select of Publish
  pub offer : Event P → Subscription P → Subscription P
  offer e s =
      if not s.subscribed
      then s
      else if ltb (length s.queue) s.size
      then record s { queue = s.queue ++ e ∷ [] }
      else record s { dropped = (s.dropped + 1) % 2 ^ 64 }

  pub stamp : Time → Event P → Event P
  stamp now e = if e.time == 0 then record e { time = now } else e

  pub publish : Time → Event P → List (Subscription P) → List (Subscription P)
  unfolding offer stamp
  publish now e = map (offer (stamp now e))

  -- an exporter takes an event from its channel, if one waits there
  pub receive : Subscription P → Subscription P × List (Event P)
  receive s = elim s.queue [ [] ↦ (s, []) | e ∷ es ↦ (record s { queue = es }, e ∷ []) ]
