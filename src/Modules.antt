-- ===== src/Modules.antt =====
-- The modules that the daemon loads, and how an event is handed to them: cron-gmodule.c.
pub mod Walk
pub mod Loading
mod Positions
pub mod Rounds
pub mod Order
pub mod Unloading
pub mod Run
mod Tests
use mpdcron.Prelude.{ℕ, zero, suc, Bytes, Bool, Option, none, some, List, [], ◌∷◌, ◌++◌}

-- enum mpdcron_event_retval, and any other number.
pub data EventReturn : Type 0 where
  success reconnect reconnect_now unload unknown : EventReturn

-- The functions of struct mpdcron_module that an event calls.
pub data Kind : Type 0 where
  database stored_playlist queue player mixer output options update : Kind

-- struct module_data. A function of the module is `none` where its pointer is null; it may change
-- the world that it shares with the other modules, and returns a number to the daemon; `destroy` may
-- change the world as well.
pub record Module (W : Type 0) : Type 0 where
  pub user : Bool
  pub path : Bytes
  pub destroy : Option (W → W)
  pub event : Kind → Option (W → EventReturn × W)

-- module_destroy_one, of the world: the destroy function is run if there is any.
unfoldable pub module_destroy_one : {W : Type 0} → Module W → W → W
module_destroy_one m w = elim m.destroy [ none ↦ w | some destroy ↦ destroy w ]

module _ {ℓ} {A : Type ℓ} where
  -- g_slist_remove_link, of the link at a position.
  unfoldable pub remove_at : ℕ → List A → List A
  remove_at n [] = []
  remove_at zero (x ∷ xs) = xs
  remove_at (suc n) (x ∷ xs) = x ∷ remove_at n xs

  unfoldable pub get_elem? : List A → ℕ → Option A
  get_elem? [] n = none
  get_elem? (x ∷ xs) zero = some x
  get_elem? (x ∷ xs) (suc n) = get_elem? xs n
