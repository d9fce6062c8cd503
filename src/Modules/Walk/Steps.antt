-- ===== src/Modules/Walk/Steps.antt =====
-- The loop over the modules, one round at a time.
use mpdcron.Prelude.{ℕ, suc, ◌+◌, ◌≡◌, ap, Bool, true, false, none, some, ◌∷◌}
use mpdcron.Modules.{EventReturn, Kind, Module, get_elem?}
use mpdcron.Modules.Walk.{Walk, process_ret, stops, round, walk_modules}

module _ {W : Type 0} (k : Kind) (m : Module W) (s : Walk W) where
  pub round-null : m.event k ≡ none → round k m s ≡ (false, record s { walk = s.walk + 1 })
  unfolding round
  round-null null = rw (null, round)

  pub round-given :
      (f : W → EventReturn × W)
      → m.event k ≡ some f
      → round k m s ≡ (
        stops (f s.world).0,
        process_ret (f s.world).0 m (record s { world = (f s.world).1; called = m ∷ s.called }),
      )
  unfolding round
  round-given f given = rw (given, round)

  pub walk_modules-more :
      (fuel : ℕ) (s' : Walk W)
      → get_elem? s.modules s.walk ≡ some m
      → round k m s ≡ (false, s')
      → walk_modules (suc fuel) k s ≡ walk_modules fuel k s'
  unfolding walk_modules
  walk_modules-more fuel s' found step =
      rw (found, ap (λ (p : Bool × Walk W). p.0) step, walk_modules)
        (ap (λ (p : Bool × Walk W). walk_modules fuel k p.1) step)

  pub walk_modules-stop :
      (fuel : ℕ) (s' : Walk W)
      → get_elem? s.modules s.walk ≡ some m
      → round k m s ≡ (true, s')
      → walk_modules (suc fuel) k s ≡ some s'
  unfolding walk_modules
  walk_modules-stop fuel s' found step =
      rw (found, ap (λ (p : Bool × Walk W). p.0) step, walk_modules)
        (ap (λ (p : Bool × Walk W). some p.1) step)

pub walk_modules-end :
    {W : Type 0} (k : Kind) (s : Walk W) (fuel : ℕ)
    → get_elem? s.modules s.walk ≡ none
    → walk_modules (suc fuel) k s ≡ some s
unfolding walk_modules
walk_modules-end k s fuel end = rw (end, walk_modules)
