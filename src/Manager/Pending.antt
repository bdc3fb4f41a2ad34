-- ===== src/Manager/Pending.antt =====
-- What the operations on the pending sets do to `IsPending`.
use acnet.Prelude.{
  ℕ, ◌≡◌, true, false, ◌∷◌, List, arith, contains, insert, erase, contains-insert, contains-erase,
}
use acnet.Plugin.{LoadedModule}
use acnet.Manager.State.{ActorMetaData, Childrens, remove, set_creator}
use acnet.Manager.Tables.{keys, keys-set_creator, IsTable, IsPending, contains-remove}

module _ {cs : Childrens} {reload stop restart : List ℕ}
    (v : IsPending cs reload stop restart) where
  open v use {reload_known, stop_known, restart_known, apart}

  pub mark_reload-IsPending :
      (i : ℕ) → contains i (keys cs) ≡ true → IsPending cs (insert i reload) stop (erase i restart)
  mark_reload-IsPending i h = record {
    reload_known = λ j e. ground (arith, contains-insert j i reload, reload_known j);
    stop_known = stop_known;
    restart_known = λ j e. ground (arith, contains-erase j i restart, restart_known j);
    apart = λ j e. ground (arith, contains-erase j i restart, contains-insert j i reload, apart j);
  }

  pub mark_stop-IsPending :
      (i : ℕ) → contains i (keys cs) ≡ true → IsPending cs reload (insert i stop) (erase i restart)
  mark_stop-IsPending i h = record {
    reload_known = reload_known;
    stop_known = λ j e. ground (arith, contains-insert j i stop, stop_known j);
    restart_known = λ j e. ground (arith, contains-erase j i restart, restart_known j);
    apart = λ j e. ground (arith, contains-erase j i restart, contains-insert j i stop, apart j);
  }

  pub mark_restart-IsPending :
      (i : ℕ)
      → contains i (keys cs) ≡ true
      → contains i reload ≡ false
      → contains i stop ≡ false
      → IsPending cs reload stop (insert i restart)
  mark_restart-IsPending i h r s = record {
    reload_known = reload_known;
    stop_known = stop_known;
    restart_known = λ j e. ground (arith, contains-insert j i restart, restart_known j);
    apart = λ j e. ground (arith, contains-insert j i restart, apart j);
  }

  pub erase-IsPending : (i : ℕ) → IsPending cs (erase i reload) (erase i stop) (erase i restart)
  erase-IsPending i = record {
    reload_known = λ j e. ground (arith, contains-erase j i reload, reload_known j);
    stop_known = λ j e. ground (arith, contains-erase j i stop, stop_known j);
    restart_known = λ j e. ground (arith, contains-erase j i restart, restart_known j);
    apart = λ j e. ground (
      arith,
      contains-erase j i restart,
      contains-erase j i reload,
      contains-erase j i stop,
      apart j,
    );
  }

  pub add-IsPending : (i : ℕ) (d : ActorMetaData) → IsPending ((i, d) ∷ cs) reload stop restart
  unfolding contains
  add-IsPending i d = record {
    reload_known = λ j e. ground (arith, reload_known j);
    stop_known = λ j e. ground (arith, stop_known j);
    restart_known = λ j e. ground (arith, restart_known j);
    apart = apart;
  }

  pub set_creator-IsPending :
      (i : ℕ) (lib : LoadedModule) → IsPending (set_creator i lib cs) reload stop restart
  set_creator-IsPending i lib = record {
    reload_known = λ j e. ground (arith, keys-set_creator i lib cs, reload_known j);
    stop_known = λ j e. ground (arith, keys-set_creator i lib cs, stop_known j);
    restart_known = λ j e. ground (arith, keys-set_creator i lib cs, restart_known j);
    apart = apart;
  }

  -- An entry leaves the table together with its marks.
  pub remove-IsPending :
      (n k i : ℕ)
      → IsTable n k cs
      → contains i reload ≡ false
      → contains i stop ≡ false
      → contains i restart ≡ false
      → IsPending (remove i cs) reload stop restart
  remove-IsPending n k i t r s u = record {
    reload_known = λ j e. ground (arith, contains-remove n k j i cs t, reload_known j);
    stop_known = λ j e. ground (arith, contains-remove n k j i cs t, stop_known j);
    restart_known = λ j e. ground (arith, contains-remove n k j i cs t, restart_known j);
    apart = apart;
  }
