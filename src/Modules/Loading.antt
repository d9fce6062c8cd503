-- ===== src/Modules/Loading.antt =====
-- module_path and module_init_one of cron-gmodule.c.
use mpdcron.Prelude.{
  ℕ, ◌+◌, ◌≡◌, ◌⊎◌, refl, inl, inr, suc, Bool-cases, Option-cases, Bytes, Bool, true, false, Option,
  none, some, List, [], ◌∷◌, ◌++◌, arith, length, if◌then◌else◌,
}
use mathlib.Core.List.{tail}
use mpdcron.Modules.{Kind, EventReturn, Module}

-- What the module structure of a shared object holds: `init` answers whether it failed.
pub record Library (W : Type 0) : Type 0 where
  pub init : Option (W → Bool × W)
  pub destroy : Option (W → W)
  pub event : Kind → Option (W → EventReturn × W)

-- The file system, GLib's file names and GModule: `open` is g_module_open, `symbol` the module
-- structure that g_module_symbol finds in what was opened.
pub record Loader (W : Type 0) : Type 1 where
  pub Handle : Type 0
  pub build_filename : List Bytes → Bytes
  pub exists : Bytes → Bool
  pub open_module : Bytes → Option Handle
  pub symbol : Handle → Option (Library W)
  pub module_suffix : Bytes
  pub mod_path : Bytes
  pub system_path : List Bytes

module _ {W : Type 0} (l : Loader W) where
  -- The user's folder first, then the system's; `true` for the user's.
  unfoldable pub module_path : Bytes → Option (Bytes × Bool)
  module_path modname =
      let name = modname ++ (b'.' ∷ l.module_suffix) in
      let user_path = l.build_filename (l.mod_path ∷ name ∷ []) in
      let path = l.build_filename (l.system_path ++ (name ∷ [])) in
      if l.exists user_path
      then some (user_path, true)
      else if l.exists path
      then some (path, false)
      else none

  -- The global list, the world, and how often a shared object was opened and closed.
  pub record Registry : Type 0 where
    pub modules : List (Module W)
    pub world : W
    pub opened : ℕ
    pub closed : ℕ

  init_library : Library W → W → Bool × W
  init_library lib w = elim lib.init [ none ↦ (false, w) | some init ↦ init w ]

  load_library : Bytes → Bool → Option (Library W) → Registry → Bool × Registry
  unfolding init_library
  load_library path user none r = (false, record r { closed = r.closed + 1 })
  load_library path user (some lib) r =
      let (failed, world) = init_library lib r.world in
      if failed then (false, record r { world = world; closed = r.closed + 1 }) else (
        true,
        record r {
          world = world;
          modules =
              record { user = user; path = path; destroy = lib.destroy; event = lib.event }
              ∷ r.modules;
        },
      )

  open_library : Bytes → Bool → Option l.Handle → Registry → Bool × Registry
  unfolding load_library
  open_library path user none r = (false, r)
  open_library path user (some handle) r =
      load_library path user (l.symbol handle) (record r { opened = r.opened + 1 })

  -- module_init_one: whether the module was loaded.
  unfoldable pub module_load : Bytes → Registry → Bool × Registry
  unfolding module_path open_library
  module_load modname r = elim (module_path modname) [
    | none ↦ (false, r)
    | some (path, user) ↦ open_library path user (l.open_module path) r
  ]

  -- What is open is what is loaded; a module that was loaded is the new head of the list, and one that
  -- was not leaves the list as it was.
  abbrev pub IsBalanced : List (Module W) → Bool × Registry → Type 0
  IsBalanced before (loaded, r) =
      (r.opened ≡ r.closed + length r.modules)
      × (((loaded ≡ false) × (r.modules ≡ before))
          ⊎ ((loaded ≡ true)
              × (tail r.modules ≡ before)
              × (length r.modules ≡ suc (length before))))

  load_library-balance :
      (path : Bytes) (user : Bool) (o : Option (Library W)) (r : Registry)
      → r.opened ≡ suc (r.closed + length r.modules)
      → IsBalanced r.modules (load_library path user o r)
  unfolding load_library
  load_library-balance path user none r h = (omega arith, inl (refl, refl))
  load_library-balance path user (some lib) r h = elim (Bool-cases (init_library lib r.world).0) [
    | inl failed ↦ rw (failed, load_library) (omega arith, inl (refl, refl))
    | inr fine ↦ rw (fine, load_library) (omega arith, inr (refl, refl, refl))
  ]

  open_library-balance :
      (path : Bytes) (user : Bool) (o : Option l.Handle) (r : Registry)
      → r.opened ≡ r.closed + length r.modules
      → IsBalanced r.modules (open_library path user o r)
  unfolding open_library
  open_library-balance path user none r h = (h, inl (refl, refl))
  open_library-balance path user (some handle) r h =
      load_library-balance path user (l.symbol handle) (record r { opened = r.opened + 1 })
        (omega arith)

  -- If as many shared objects are open as were closed or belong to loaded modules, then on every
  -- branch of loading a module the number of open shared objects stays that of closed ones and
  -- loaded modules together; a module that was loaded stands in front of the others, and one that
  -- was not leaves the list as it was.
  pub module_load-balance :
      (modname : Bytes) (r : Registry)
      → r.opened ≡ r.closed + length r.modules
      → IsBalanced r.modules (module_load modname r)
  unfolding module_load
  module_load-balance modname r h = elim (Option-cases (module_path modname)) [
    | inl missing ↦ rw (missing, module_load) (h, inl (refl, refl))
    | inr ((path, user), found) ↦
        rw (found, module_load) (open_library-balance path user (l.open_module path) r h)
  ]
