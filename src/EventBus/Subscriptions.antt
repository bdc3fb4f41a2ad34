-- ===== src/EventBus/Subscriptions.antt =====
-- What the bus promises: each publication goes to the mailboxes that subscribe to its type at that time,
-- to each as often as it has subscribed and not unsubscribed.
use acnet.Prelude.{
  ℕ, ◌+◌, ◌-◌, ◌≡◌, refl, List, [], ◌∷◌, count, none, some, ap, ◌∙◌, Bool, ◌≤◌, length, subst,
}
use acnet.Message.{EventType}
use acnet.EventBus.{EventBus, Local, Routes, subscribe, unsubscribe, subscribers, refresh, publish}
use acnet.EventBus.Delivered.{HasGot, publish-Gets}
use acnet.MailBox.{MailBox, World, at, mail_box_size}
use acnet.EventBus.Routing.{number, hit, subscribe-number, unsubscribe-number}
use acnet.EventBus.Sharing.{targets}
use acnet.EventBus.History.{
  Call, subscribes, unsubscribes, publishes, after, new_bus, new_local, Coherent,
  subscribe-Coherent, unsubscribe-Coherent, refresh_lem, new-Coherent, refresh-current,
}

-- How often each mailbox subscribes to each type.
abbrev pub Subscriptions : Type 0
Subscriptions = EventType → ℕ → ℕ

-- The calls, one after the other; an unsubscription without a subscription is void.
unfoldable pub subscribed : List Call → Subscriptions → Subscriptions
subscribed [] f = f
subscribed (subscribes s c ∷ calls) f = subscribed calls (λ t b. f t b + hit s c t b)
subscribed (unsubscribes s c ∷ calls) f = subscribed calls (λ t b. f t b - hit s c t b)
subscribed (publishes ∷ calls) f = subscribed calls f

-- The mailboxes that a publication of the type goes to.
count-targets : (t : EventType) (b : ℕ) (r : Routes) → count b (targets t r) ≡ number t b r
count-targets t b r =
    elim (subscribers t r)
      as (λ o.
        count b (elim o [ none ↦ [] | some bs ↦ bs ])
        ≡ elim o [ none ↦ 0 | some bs ↦ count b bs ]) [ none ↦ refl | some bs ↦ refl ]

subscribed_ext :
    (calls : List Call) (f g : Subscriptions)
    → ((t : EventType) (b : ℕ) → f t b ≡ g t b)
    → (t : EventType) (b : ℕ) → subscribed calls f t b ≡ subscribed calls g t b
unfolding subscribed
subscribed_ext [] f g h = h
subscribed_ext (subscribes s c ∷ calls) f g h =
    subscribed_ext calls _ _ (λ t b. ap (λ k. k + hit s c t b) (h t b))
subscribed_ext (unsubscribes s c ∷ calls) f g h =
    subscribed_ext calls _ _ (λ t b. ap (λ k. k - hit s c t b) (h t b))
subscribed_ext (publishes ∷ calls) f g h = subscribed_ext calls f g h

after-number :
    (calls : List Call) (bus : EventBus) (loc : Local)
    → Coherent bus loc
    → (t : EventType) (b : ℕ)
    → number t b (after calls bus loc).0.event_bus
      ≡ subscribed calls (λ t b. number t b bus.event_bus) t b
unfolding after subscribed
after-number [] bus loc v t b = refl
after-number (subscribes s c ∷ calls) bus loc v t b =
    after-number calls (subscribe s c bus) loc (subscribe-Coherent s c bus loc v) t b
    ∙ subscribed_ext calls _ _ (λ u d. subscribe-number s u c d bus) t b
after-number (unsubscribes s c ∷ calls) bus loc v t b =
    after-number calls (unsubscribe s c bus) loc (unsubscribe-Coherent s c bus loc v) t b
    ∙ subscribed_ext calls _ _ (λ u d. unsubscribe-number s u c d bus v.routing) t b
after-number (publishes ∷ calls) bus loc v t b =
    after-number calls bus (refresh bus loc) (refresh_lem bus loc v).1 t b

-- After every sequence of calls by all threads, the thread's table, brought up to date, has each mailbox
-- for the type as often as the calls have subscribed it to the type, less the unsubscriptions that met a
-- subscription.
targets-subscribed :
    (calls : List Call) (t : EventType) (b : ℕ)
    → let (bus, loc) = after calls new_bus new_local in
      count b (targets t (refresh bus loc).local_event_bus) ≡ subscribed calls (λ t b. 0) t b
unfolding new_bus subscribers
targets-subscribed calls t b =
    let (bus, loc) = after calls new_bus new_local in
    count-targets t b (refresh bus loc).local_event_bus
    ∙ ap (number t b) (refresh-current calls).0
    ∙ after-number calls new_bus new_local new-Coherent t b

-- After every sequence of calls by all threads, a thread publishes a message. Each mailbox of the program
-- is sent as many copies as the calls have subscribed it to the type, less the unsubscriptions that met a
-- subscription: so many more places of its queue hold the message or so many more messages are counted
-- as discarded, together, and none is discarded where its queue has room for all the copies.
pub publish-subscribed :
    (done : ℕ → Bool) (calls : List Call) (t : EventType) (p b : ℕ) (c : MailBox) (w : World)
    → at b w.boxes ≡ some c
    → let (bus, loc) = after calls new_bus new_local in
      let k = subscribed calls (λ t b. 0) t b in
      (c' : MailBox) × (at b (publish done bus t p loc w).1.boxes ≡ some c')
      × (count p c'.mailbox + c'.discarded_nr ≡ count p c.mailbox + c.discarded_nr + k)
      × (length c.mailbox + k ≤ mail_box_size → c'.discarded_nr ≡ c.discarded_nr)
publish-subscribed done calls t p b c w h =
    let (bus, loc) = after calls new_bus new_local in
    let e = targets-subscribed calls t b in
    let (x, k, v) = publish-Gets done bus t p b loc c w h in
    let u = subst (λ n. HasGot p n c x) e v in (x, k, u.copies, u.kept)
