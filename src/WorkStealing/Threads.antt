-- ===== src/WorkStealing/Threads.antt =====
-- `WorkStealingQueue` under its owner and any number of thieves, interleaved at their accesses to
-- `top_`, `bottom_` and the slots. The accesses take effect in one order that all threads agree on.
-- Each thread's own computation is part of the access before it; a push that finds the queue full
-- changes nothing and is left out.
use acnet.Prelude.{
  ℕ, ◌%◌, ◌≡◌, ◌==◌, leb, true, false, List, [], ◌∷◌, increment, decrement, subtract, signed_ltb,
  signed_leb, update_at,
}
use acnet.WorkStealing.{WorkStealingQueue, new_queue}

-- Where the owner is: in `push`, before the slot is stored and before `bottom_` is; in `pop`, after
-- `bottom_` has been lowered, before the compare-exchange, and before `bottom_` is restored.
pub data Owner : Type 0 where
  idle : Owner
  pushing : ℕ → Owner
  stored : ℕ → Owner
  popping : Owner
  racing : Owner
  restoring : Owner

-- Where a thief is in `steal`: it has loaded `top_`; it has found `bottom_` above that; it has also
-- loaded the slot.
pub data Thief : Type 0 where
  resting : Thief
  read_top : ℕ → Thief
  seen : ℕ → Thief
  ready : (tp ptr : ℕ) → Thief

-- `pushed` and `taken` list the handles that the calls have put in and handed out, newest first.
pub record State : Type 0 where
  pub q : WorkStealingQueue
  pub owner : Owner
  pub thieves : ℕ → Thief
  pub pushed : List ℕ
  pub taken : List ℕ

abbrev pub initial : State
initial = record { q = new_queue; owner = idle; thieves = λ i. resting; pushed = []; taken = [] }

module _ (N : ℕ) where
  pub data Step (s : State) : State → Type 0 where
    -- `push`
    begin_push :
        (x : ℕ)
        → s.owner ≡ idle
        → leb N (subtract s.q.bottom s.q.top) ≡ false
        → Step s (record s { owner = pushing x })
    store_slot :
        {x : ℕ}
        → s.owner ≡ pushing x
        → Step s (record s {
          q = record s.q { queue = update_at s.q.queue (s.q.bottom % N) x };
          owner = stored x;
        })
    publish :
        {x : ℕ}
        → s.owner ≡ stored x
        → Step s (record s {
          q = record s.q { bottom = increment s.q.bottom };
          owner = idle;
          pushed = x ∷ s.pushed;
        })
    -- `pop`
    begin_pop :
        s.owner ≡ idle
        → Step s (record s { q = record s.q { bottom = decrement s.q.bottom }; owner = popping })
    pop_empty :
        s.owner ≡ popping
        → signed_leb s.q.top s.q.bottom ≡ false
        → Step s (record s { owner = restoring })
    pop_inner :
        s.owner ≡ popping
        → signed_leb s.q.top s.q.bottom ≡ true
        → (s.q.top == s.q.bottom) ≡ false
        → Step s (record s { owner = idle; taken = s.q.queue (s.q.bottom % N) ∷ s.taken })
    pop_last :
        s.owner ≡ popping
        → signed_leb s.q.top s.q.bottom ≡ true
        → (s.q.top == s.q.bottom) ≡ true
        → Step s (record s { owner = racing })
    win :
        s.owner ≡ racing
        → (s.q.top == s.q.bottom) ≡ true
        → Step s (record s {
          q = record s.q { top = increment s.q.top };
          owner = restoring;
          taken = s.q.queue (s.q.bottom % N) ∷ s.taken;
        })
    lose :
        s.owner ≡ racing → (s.q.top == s.q.bottom) ≡ false → Step s (record s { owner = restoring })
    restore :
        s.owner ≡ restoring
        → Step s (record s { q = record s.q { bottom = increment s.q.bottom }; owner = idle })
    -- `steal` by the thief `i`
    look :
        (i : ℕ)
        → s.thieves i ≡ resting
        → Step s (record s { thieves = update_at s.thieves i (read_top s.q.top) })
    see :
        (i : ℕ) {tp : ℕ}
        → s.thieves i ≡ read_top tp
        → signed_ltb tp s.q.bottom ≡ true
        → Step s (record s { thieves = update_at s.thieves i (seen tp) })
    see_empty :
        (i : ℕ) {tp : ℕ}
        → s.thieves i ≡ read_top tp
        → signed_ltb tp s.q.bottom ≡ false
        → Step s (record s { thieves = update_at s.thieves i resting })
    load :
        (i : ℕ) {tp : ℕ}
        → s.thieves i ≡ seen tp
        → Step s (record s { thieves = update_at s.thieves i (ready tp (s.q.queue (tp % N))) })
    win_steal :
        (i : ℕ) {tp ptr : ℕ}
        → s.thieves i ≡ ready tp ptr
        → (s.q.top == tp) ≡ true
        → Step s (record s {
          q = record s.q { top = increment tp };
          thieves = update_at s.thieves i resting;
          taken = ptr ∷ s.taken;
        })
    abort :
        (i : ℕ) {tp ptr : ℕ}
        → s.thieves i ≡ ready tp ptr
        → (s.q.top == tp) ≡ false
        → Step s (record s { thieves = update_at s.thieves i resting })

  pub data Reach : State → Type 0 where
    start : Reach initial
    next : {s t : State} → Reach s → Step s t → Reach t
