-- ===== src/EventBus/History.antt =====
-- The bus under the calls of all threads, with the copy of one of them.
use acnet.Prelude.{ℕ, ◌≤◌, ◌≡◌, refl, ltb, List, [], ◌∷◌, arith, Bool-cases, Option-cases, inl, inr}
use acnet.Message.{EventType}
use acnet.EventBus.{EventBus, Local, subscribe, unsubscribe, withdraw, sync_route_table, refresh}
use acnet.EventBus.Routing.{IsRouting, nil, push_back-IsRouting, withdraw-IsRouting}

-- `Subscribe` and `Unsubscribe` by any thread, and `Publish` by the thread of the copy.
pub data Call : Type 0 where
  subscribes : EventType → ℕ → Call
  unsubscribes : EventType → ℕ → Call
  publishes : Call

-- What the calls leave, of the bus and of the copy.
unfoldable pub after : List Call → EventBus → Local → EventBus × Local
after [] bus loc = (bus, loc)
after (subscribes t b ∷ calls) bus loc = after calls (subscribe t b bus) loc
after (unsubscribes t b ∷ calls) bus loc = after calls (unsubscribe t b bus) loc
after (publishes ∷ calls) bus loc = after calls bus (refresh bus loc)

-- The members' initial values.
unfoldable pub new_bus : EventBus
new_bus = record { event_bus = []; version = 0 }

unfoldable pub new_local : Local
new_local = record { local_event_bus = []; local_version = 0 }

pub record Coherent (bus : EventBus) (loc : Local) : Type 0 where
  pub routing : IsRouting bus.event_bus
  behind : loc.local_version ≤ bus.version
  equal : loc.local_version ≡ bus.version → loc.local_event_bus ≡ bus.event_bus

pub subscribe-Coherent :
    (t : EventType) (b : ℕ) (bus : EventBus) (loc : Local)
    → Coherent bus loc
    → Coherent (subscribe t b bus) loc
unfolding subscribe
subscribe-Coherent t b bus loc v = record {
  routing = push_back-IsRouting t b bus.event_bus v.routing;
  behind = omega (arith, v.behind);
  equal = λ e. absurd (omega (arith, v.behind));
}

pub unsubscribe-Coherent :
    (t : EventType) (b : ℕ) (bus : EventBus) (loc : Local)
    → Coherent bus loc
    → Coherent (unsubscribe t b bus) loc
unfolding unsubscribe
unsubscribe-Coherent t b bus loc v = elim (Option-cases (withdraw t b bus.event_bus)) [
  | inl e ↦ rw (e, unsubscribe) v
  | inr (r, e) ↦
      rw (e, unsubscribe)
        (record {
          routing = withdraw-IsRouting t b bus.event_bus r v.routing e;
          behind = omega (arith, v.behind);
          equal = λ k. absurd (omega (arith, v.behind));
        })
]

pub refresh_lem :
    (bus : EventBus) (loc : Local)
    → Coherent bus loc
    → ((refresh bus loc).local_event_bus ≡ bus.event_bus) × Coherent bus (refresh bus loc)
unfolding refresh sync_route_table
refresh_lem bus loc v = elim (Bool-cases (ltb loc.local_version bus.version)) [
  | inl e ↦ simp e (refl, record { routing = v.routing; behind = omega arith; equal = λ k. refl })
  | inr e ↦ simp e (v.equal (ground (arith, v.behind)), v)
]

after-Coherent :
    (calls : List Call) (bus : EventBus) (loc : Local)
    → Coherent bus loc
    → let (bus', loc') = after calls bus loc in Coherent bus' loc'
unfolding after
after-Coherent [] bus loc v = v
after-Coherent (subscribes t b ∷ calls) bus loc v =
    after-Coherent calls _ loc (subscribe-Coherent t b bus loc v)
after-Coherent (unsubscribes t b ∷ calls) bus loc v =
    after-Coherent calls _ loc (unsubscribe-Coherent t b bus loc v)
after-Coherent (publishes ∷ calls) bus loc v = after-Coherent calls bus _ (refresh_lem bus loc v).1

pub new-Coherent : Coherent new_bus new_local
unfolding new_bus new_local
new-Coherent = record { routing = nil; behind = omega arith; equal = λ e. refl }

-- After every sequence of calls by all threads, the table that a thread publishes by is the bus's
-- current one, in which each event type stands at most once and no entry is empty.
pub refresh-current :
    (calls : List Call)
    → let (bus, loc) = after calls new_bus new_local in
      ((refresh bus loc).local_event_bus ≡ bus.event_bus) × IsRouting bus.event_bus
refresh-current calls =
    let v = after-Coherent calls _ _ new-Coherent in ((refresh_lem _ _ v).0, v.routing)
