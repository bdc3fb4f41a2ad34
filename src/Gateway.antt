-- ===== src/Gateway.antt =====
-- src/modules/network_module/gateway_actor.cc, `GateWayActor`: the module's part in the life of its
-- coroutine. `ProcessEvent` does nothing with any message, and `error_handle` only pauses.
use acnet.Prelude.{ℕ, ◌≡◌, ◌==◌, ◌||◌, refl, List, [], ◌∷◌, arith, Bool-cases, inl, inr}
use acnet.Message.{EventType, cmd_module_stop}
use acnet.Plugin.{LoadedModule}
use acnet.EventBus.{EventBus, subscribe, unsubscribe}
use acnet.EventBus.Routing.{
  number, IsRouting, push_back-IsRouting, subscribe-number, unsubscribe-number,
}
use acnet.Actor.{
  Runtime, ActorEffect, initialized, marked_running, reported, handled_error, uninitialized,
  destroyed, launch_actor, run_coroutine,
}

unfoldable pub init : ℕ → EventBus → EventBus
init mailbox bus = subscribe cmd_module_stop mailbox bus

unfoldable pub uninit : ℕ → EventBus → EventBus
uninit mailbox bus = unsubscribe cmd_module_stop mailbox bus

-- What the coroutine of a gateway with this mailbox does to the bus.
unfoldable pub bus_after : ℕ → List ActorEffect → EventBus → EventBus
unfolding init uninit
bus_after mailbox [] bus = bus
bus_after mailbox (initialized a ∷ es) bus = bus_after mailbox es (init mailbox bus)
bus_after mailbox (uninitialized a ∷ es) bus = bus_after mailbox es (uninit mailbox bus)
bus_after mailbox (marked_running ∷ es) bus = bus_after mailbox es bus
bus_after mailbox (reported msg ∷ es) bus = bus_after mailbox es bus
bus_after mailbox (handled_error a ∷ es) bus = bus_after mailbox es bus
bus_after mailbox (destroyed f a ∷ es) bus = bus_after mailbox es bus

-- A gateway that comes and goes leaves the subscriptions as they were.
init-uninit :
    (mailbox : ℕ) (t : EventType) (b : ℕ) (bus : EventBus)
    → IsRouting bus.event_bus
    → number t b (uninit mailbox (init mailbox bus)).event_bus ≡ number t b bus.event_bus
unfolding init uninit subscribe
init-uninit mailbox t b bus r = omega (
  arith,
  subscribe-number cmd_module_stop t mailbox b bus,
  unsubscribe-number cmd_module_stop t mailbox b (subscribe cmd_module_stop mailbox bus)
      (push_back-IsRouting cmd_module_stop mailbox bus.event_bus r),
)

-- Where each type stands once in the table of the bus and no entry is empty: a launch of a gateway's
-- coroutine, whatever the library and `create_func` answer, ends with every mailbox subscribed to
-- every type as often as before. So crashes and restarts do not pile up subscriptions.
pub launch_actor-number :
    (rt : Runtime) (lib : LoadedModule) (id mailbox : ℕ) (t : EventType) (b : ℕ) (bus : EventBus)
    → IsRouting bus.event_bus
    → number t b (bus_after mailbox (launch_actor rt lib id) bus).event_bus
      ≡ number t b bus.event_bus
unfolding launch_actor run_coroutine bus_after
launch_actor-number rt lib id mailbox t b bus r =
    elim (Bool-cases (lib.create_func == 0 || lib.destroy_func == 0)) [
      | inl e ↦ rw (e, launch_actor) refl
      | inr e ↦ elim (Bool-cases (rt.create lib.create_func id == 0)) [
        | inl f ↦ rw (e, launch_actor, f) refl
        | inr f ↦ rw (e, launch_actor, f) (init-uninit mailbox t b bus r)
      ]
    ]
