-- ===== src/Plugin.antt =====
-- src/core/plugin_manager.h and plugin_manager.cc: the configuration file and its loading; and
-- `LoadedModule` of src/core/actor_manager.cc, a shared library with its two entry points.
-- The operating system, the dynamic linker and the TOML parser are arguments.
use acnet.Prelude.{
  ℕ, ◌==◌, if◌then◌else◌, Bool, true, false, Option, none, some, List, [], ◌∷◌, ◌++◌, Bytes, codes,
}

-- `struct ac_module`
pub record AcModule : Type 0 where
  pub module_name : Bytes
  pub library_name : Bytes

-- `struct ac_config`
pub record AcConfig : Type 0 where
  pub library_path : Bytes
  pub modules : List AcModule

-- What the system calls and the parser answer while the file is loaded: `stat` (whether it
-- succeeds, whether the file is regular), `open` (whether the descriptor is valid), `read` (`none`
-- if it returns 0 or less) and `glz::read_toml` (`none` on an error).
pub record Host : Type 0 where
  pub stat_ok : Bool
  pub is_regular : Bool
  pub open_ok : Bool
  pub content : Option Bytes
  pub read_toml : Bytes → Option AcConfig

-- `PluginManager::__config_loader`; `none` is the null pointer.
unfoldable pub config_loader : Host → Option AcConfig
config_loader h =
    if h.stat_ok
    then (if h.is_regular
        then (if h.open_ok then elim h.content [ none ↦ none | some c ↦ h.read_toml c ] else none)
        else none)
    else none

-- `PluginManager::UpdateConfig`, on the configuration that is held: the new one and the result.
unfoldable pub update_config : Host → AcConfig → AcConfig × Bool
update_config h old = elim (config_loader h) [ none ↦ (old, false) | some new ↦ (new, true) ]

-- The dynamic linker. A null handle is 0; `dlsym` gives `none` where `dlerror` then reports an
-- error, and otherwise an address, which may be 0.
pub record Loader : Type 0 where
  pub dlopen : Bytes → ℕ
  pub dlsym : ℕ → Bytes → Option ℕ

-- A handle that `dlopen` returned, or that was given to `dlclose`.
pub data DlCall : Type 0 where
  opened : ℕ → DlCall
  closed : ℕ → DlCall

-- `struct LoadedModule`; a null pointer is 0.
pub record LoadedModule : Type 0 where
  pub path : Bytes
  pub handle : ℕ
  pub create_func : ℕ
  pub destroy_func : ℕ

-- The constructor.
unfoldable pub loaded_module : Bytes → LoadedModule
loaded_module path = record { path = path; handle = 0; create_func = 0; destroy_func = 0 }

-- `LoadedModule::Close`, with the calls of the linker that it makes.
unfoldable pub close_module : LoadedModule → LoadedModule × List DlCall
close_module m = (
  record m { handle = 0; create_func = 0; destroy_func = 0 },
  if m.handle == 0 then [] else closed m.handle ∷ [],
)

-- `Close(); return false;` where a symbol is missing.
unfoldable pub close_after_error : LoadedModule → List DlCall → LoadedModule × Bool × List DlCall
unfolding close_module
close_after_error m calls = let (m', cs) = close_module m in (m', false, calls ++ cs)

-- The part of `LoadedModule::Open` after `dlopen` has returned the handle `h`, which is not null.
unfoldable pub resolve_symbols :
    Loader → LoadedModule → ℕ → List DlCall → LoadedModule × Bool × List DlCall
unfolding close_after_error
resolve_symbols l m h calls =
    let m1 = record m { handle = h } in
    elim (l.dlsym h (codes "CreateModule")) [
      | none ↦ close_after_error m1 calls
      | some create ↦
          let m2 = record m1 { create_func = create } in
          elim (l.dlsym h (codes "DestroyModule")) [
            | none ↦ close_after_error m2 calls
            | some destroy ↦ (record m2 { destroy_func = destroy }, true, calls)
          ]
    ]

-- `LoadedModule::Open`: the module, whether it succeeded, and the calls of the linker.
unfoldable pub open_module : Loader → LoadedModule → LoadedModule × Bool × List DlCall
unfolding close_module resolve_symbols
open_module l m =
    let (m0, calls) = close_module m in
    let h = l.dlopen m0.path in
    if h == 0 then (m0, false, calls) else resolve_symbols l m0 h (calls ++ opened h ∷ [])
