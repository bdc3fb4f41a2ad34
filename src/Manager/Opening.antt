-- ===== src/Manager/Opening.antt =====
-- `__load_modules` of src/core/actor_manager.cc, run without interference: its rounds one after the other
-- do what the function does at once.
use acnet.Prelude.{◌≡◌, refl, false, Option, none, some, List, [], ◌∷◌, ◌++◌, ap, sym, ◌∙◌}
use acnet.Plugin.{AcModule, AcConfig, Loader, LoadedModule}
use acnet.Manager.State.{Launch, enqueued_batch, ActorManager, emit}
use acnet.Manager.Loading.{library_file, generate_creator, add_child, load_each}
use acnet.Manager.EventLoop.{Event, loads, loading, load_next, run_events}

-- A round for each module, and the last one.
abbrev rounds : Loader → List AcModule → List Event
rounds l [] = loads l ∷ []
rounds l (md ∷ mods) = loads l ∷ rounds l mods

-- What the rounds for the modules that are left do, where the first rounds have led to `m`.
abbrev IsLoaded : Loader → AcConfig → List AcModule → List Launch → ActorManager → Type 0
IsLoaded l c mods tasks m =
    run_events (rounds l mods) (loading c mods tasks) m
    ≡ (emit (enqueued_batch (load_each l c mods m tasks).1) (load_each l c mods m tasks).0, false)

round-IsLoaded :
    (l : Loader) (c : AcConfig) (md : AcModule) (mods : List AcModule)
    → ((tasks : List Launch) (m : ActorManager) → IsLoaded l c mods tasks m)
    → (tasks : List Launch) (m : ActorManager) (o : Option LoadedModule)
    → generate_creator l (library_file c md) ≡ o
    → IsLoaded l c (md ∷ mods) tasks m
unfolding run_events load_next load_each
round-IsLoaded l c md mods rest tasks m none e =
    let one : load_next l (loading c (md ∷ mods) tasks) m ≡ (loading c mods tasks, m) =
      rw (e, load_next) refl in
    let all : load_each l c (md ∷ mods) m tasks ≡ load_each l c mods m tasks =
      rw (e, load_each) refl in
    ap (λ p. run_events (rounds l mods) p.0 p.1) one
    ∙ (rest tasks m ∙ ap (λ p. (emit (enqueued_batch p.1) p.0, false)) (sym all))
round-IsLoaded l c md mods rest tasks m (some lib) e =
    let (n, task) = add_child md.module_name lib m in
    let one : load_next l (loading c (md ∷ mods) tasks) m
        ≡ (loading c mods (tasks ++ task ∷ []), n) =
      rw (e, load_next) refl in
    let all : load_each l c (md ∷ mods) m tasks ≡ load_each l c mods n (tasks ++ task ∷ []) =
      rw (e, load_each) refl in
    ap (λ p. run_events (rounds l mods) p.0 p.1) one
    ∙ (rest (tasks ++ task ∷ []) n ∙ ap (λ p. (emit (enqueued_batch p.1) p.0, false)) (sym all))

pub rounds-IsLoaded :
    (l : Loader) (c : AcConfig) (mods : List AcModule) (tasks : List Launch) (m : ActorManager)
    → IsLoaded l c mods tasks m
unfolding run_events load_next load_each
rounds-IsLoaded l c [] tasks m = refl
rounds-IsLoaded l c (md ∷ mods) tasks m =
    round-IsLoaded l c md mods (rounds-IsLoaded l c mods) tasks m
      (generate_creator l (library_file c md)) refl
