-- ===== src/Modules/Tests.antt =====
-- The modules loop and the loader on concrete modules.
use mathlib.Core.List.{Perm}
use mpdcron.Prelude.{
  ℕ, ◌+◌, ◌≡◌, ◌≢◌, refl, ap, ◌∙◌, some_inj, codes, true, false, none, some, List, [], ◌∷◌, All,
  arith,
}
use mpdcron.Modules.{
  EventReturn, success, reconnect, reconnect_now, unload, player, Module, module_destroy_one,
}
use mpdcron.Modules.Walk.{Walk, walk_modules, from_start}
use mpdcron.Modules.Rounds.{walk_modules-total}
use mpdcron.Modules.Order.{
  Stays, Visit, visit, walk_of, nothing_visited, walk_modules-eq-visit, walk_modules-last,
}
use mpdcron.Modules.Unloading.{walk_modules-known, unload_skips_next}
use mpdcron.Modules.Loading.{Loader, Registry, IsBalanced, module_load, module_load-balance}

-- A module whose functions give one answer; the world counts the calls, and ten for a `destroy`.
abbrev answers : EventReturn → Module ℕ
answers r = record {
  user = true;
  path = codes "m";
  destroy = some (λ w. w + 10);
  event = λ k. some (λ w. (r, w + 1));
}

answer_of :
    (r : EventReturn) (f : ℕ → EventReturn × ℕ)
    → (answers r).event player ≡ some f
    → (w : ℕ) → r ≡ (f w).0
answer_of r f given w = ap (λ (g : ℕ → EventReturn × ℕ). (g w).0) (some_inj given)

answers-Stays : (r : EventReturn) → r ≢ unload → Stays player (answers r)
answers-Stays r h f given w e = h (answer_of r f given w ∙ e)

abbrev two : List (Module ℕ)
two = answers reconnect ∷ answers success ∷ []

two-Stays : All (Stays player) two
two-Stays = (answers-Stays reconnect (λ e. cc), (answers-Stays success (λ e. cc), tt))

abbrev visited_two : Visit ℕ
visited_two = record {
  failed = false;
  world = 2;
  called = answers success ∷ answers reconnect ∷ [];
}

walk_modules-total_example : (s : Walk ℕ) × (walk_modules 7 player (from_start two 0) ≡ some s)
walk_modules-total_example = walk_modules-total player 7 (from_start two 0) (omega arith)

walk_modules-eq-visit_example :
    (n : ℕ) × (walk_modules 3 player (from_start two 0) ≡ some (walk_of two [] n visited_two))
unfolding visit nothing_visited
walk_modules-eq-visit_example = walk_modules-eq-visit player two 0 two-Stays

reconnect-ne-now : reconnect ≢ reconnect_now
reconnect-ne-now e = cc

-- The first module asked for a new connection, and the daemon is told nothing of it.
walk_modules-last_example :
    (s : Walk ℕ) × (walk_modules 3 player (from_start two 0) ≡ some s) × (s.failed ≡ false)
walk_modules-last_example =
    walk_modules-last player (answers reconnect ∷ []) (answers success) 0 two-Stays
      ((λ f given w e. reconnect-ne-now (answer_of reconnect f given w ∙ e)), tt)
      ((λ w. (success, w + 1)), refl, λ w. refl)

unload_skips_next_example :
    (p : ℕ) × (walk_modules 2 player (from_start (answers unload ∷ answers success ∷ []) 0)
      ≡ some (
          walk_of
            (answers success ∷ [])
            (answers unload ∷ [])
            p
            (record { failed = false; world = 11; called = answers unload ∷ [] })))
unfolding visit module_destroy_one
unload_skips_next_example =
    unload_skips_next player (answers unload) (answers success) [] 0
      ((λ w. (unload, w + 1)), refl, λ w. refl) tt

abbrev alone : Walk ℕ
alone = record {
  modules = [];
  walk = 1;
  failed = false;
  world = 11;
  called = answers unload ∷ [];
  destroyed = answers unload ∷ [];
}

walk_modules-known_example : Perm (answers unload ∷ []) (answers unload ∷ [])
unfolding walk_modules
walk_modules-known_example =
    walk_modules-known player 2 (from_start (answers unload ∷ []) 0) alone refl

abbrev no_files : Loader ℕ
no_files = record {
  Handle = ℕ;
  build_filename = λ parts. [];
  exists = λ path. true;
  open_module = λ path. some 0;
  symbol = λ h. some (record { init = some (λ w. (true, w)); destroy = none; event = λ k. none });
  module_suffix = codes "so";
  mod_path = codes "/home";
  system_path = codes "/usr" ∷ [];
}

abbrev empty_registry : Registry no_files
empty_registry = record { modules = []; world = 0; opened = 0; closed = 0 }

module_load-balance_example :
    IsBalanced no_files [] (module_load no_files (codes "stats") empty_registry)
module_load-balance_example =
    module_load-balance no_files (codes "stats") empty_registry (omega arith)
