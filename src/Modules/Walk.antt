-- ===== src/Modules/Walk.antt =====
-- The loop of module_database_run and its seven copies, with module_process_ret.
pub mod Steps
use mpdcron.Prelude.{
  ℕ, zero, suc, ◌+◌, Bytes, Bool, true, false, Option, none, some, List, [], ◌∷◌, ◌++◌,
}
use mpdcron.Modules.{
  EventReturn, success, reconnect, reconnect_now, unload, unknown, Kind, Module, module_destroy_one,
  remove_at, get_elem?,
}

-- The state of the loop. `modules` is the global list, `walk` the position of the loop variable in
-- it, `failed` says that `ret` is -1. `called` and `destroyed` list the modules whose function, or
-- whose `destroy`, has been called, the last one first.
pub record Walk (W : Type 0) : Type 0 where
  pub modules : List (Module W)
  pub walk : ℕ
  pub failed : Bool
  pub world : W
  pub called : List (Module W)
  pub destroyed : List (Module W)

-- ret < 0 && mret == MPDCRON_EVENT_RECONNECT_NOW
abbrev pub stops : EventReturn → Bool
stops reconnect_now = true
stops _ = false

module _ {W : Type 0} where
  -- module_process_ret, with the step of the loop behind it. An unloaded module's link is
  -- taken out, the module is destroyed, and the loop variable is set to the head of the list, from
  -- which the loop steps on.
  unfoldable pub process_ret : EventReturn → Module W → Walk W → Walk W
  unfolding remove_at module_destroy_one
  process_ret success m s = record s { failed = false; walk = s.walk + 1 }
  process_ret reconnect m s = record s { failed = true; walk = s.walk + 1 }
  process_ret reconnect_now m s = record s { failed = true; walk = s.walk + 1 }
  process_ret unload m s = record s {
    failed = false;
    modules = remove_at s.walk s.modules;
    walk = 1;
    world = module_destroy_one m s.world;
    destroyed = m ∷ s.destroyed;
  }
  process_ret unknown m s = record s { failed = false; walk = s.walk + 1 }

  unfoldable pub call : (W → EventReturn × W) → Module W → Walk W → EventReturn × Walk W
  unfolding process_ret
  call f m s =
      let (mret, world) = f s.world in
      (mret, process_ret mret m (record s { world = world; called = m ∷ s.called }))

  -- One round of the loop for the module at the loop variable: the new state, and whether to stop.
  unfoldable pub round : Kind → Module W → Walk W → Bool × Walk W
  unfolding call
  round k m s = elim (m.event k) [
    | none ↦ (false, record s { walk = s.walk + 1 })
    | some f ↦ let (mret, s') = call f m s in (stops mret, s')
  ]

  -- The loop; `none` means that the fuel ran out.
  unfoldable pub walk_modules : ℕ → Kind → Walk W → Option (Walk W)
  unfolding round get_elem?
  walk_modules zero k s = none
  walk_modules (suc fuel) k s = elim (get_elem? s.modules s.walk) [
    | none ↦ some s
    | some m ↦ elim (round k m s).0 [
      | true ↦ some (round k m s).1
      | false ↦ walk_modules fuel k (round k m s).1
    ]
  ]

  abbrev pub from_start : List (Module W) → W → Walk W
  from_start modules world = record {
    modules = modules;
    walk = 0;
    failed = false;
    world = world;
    called = [];
    destroyed = [];
  }
