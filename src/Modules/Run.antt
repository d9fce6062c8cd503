-- ===== src/Modules/Run.antt =====
-- module_database_run and its seven copies as one total function of the event.
use mpdcron.Prelude.{ℕ, ◌+◌, ◌≡◌, some, List, arith}
use mpdcron.Modules.{Kind, Module}
use mpdcron.Modules.Walk.{Walk, walk_modules, from_start}
use mpdcron.Modules.Rounds.{rounds, walk_modules-total}

module _ {W : Type 0} (k : Kind) (modules : List (Module W)) (world : W) where
  abbrev enough : ℕ
  enough = rounds (from_start modules world) + 1

  -- The state in which the loop ends; its `failed` is the return value -1.
  pub module_run : Walk W
  module_run = (walk_modules-total k enough (from_start modules world) (omega arith)).0

  pub module_run_lem : walk_modules enough k (from_start modules world) ≡ some module_run
  unfolding module_run
  module_run_lem = (walk_modules-total k enough (from_start modules world) (omega arith)).1
