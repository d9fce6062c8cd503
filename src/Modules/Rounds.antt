-- ===== src/Modules/Rounds.antt =====
-- The loop over the modules ends.
use mpdcron.Prelude.{
  ℕ, zero, suc, ◌+◌, ◌-◌, ◌*◌, ◌<◌, ◌≡◌, some, Option-cases, Bool-cases, inl, inr, ◌∷◌, length,
  arith,
}
use mpdcron.Modules.{
  EventReturn, success, reconnect, reconnect_now, unload, unknown, Kind, Module, remove_at,
  get_elem?,
}
use mpdcron.Modules.Walk.{Walk, process_ret, call, round, walk_modules}
use mpdcron.Modules.Positions.{length-remove_at, get_elem?-lt}

square_drop : (a b : ℕ) → suc a ≡ b → a * a + (a - 1) < b * b
square_drop a b e = rw (← e) (omega arith)

module _ {W : Type 0} where
  -- Rounds that are left at most: an unload shortens the list, any other round goes on in it.
  abbrev pub rounds : Walk W → ℕ
  rounds s = length s.modules * length s.modules + (length s.modules - s.walk)

  process_ret-rounds :
      (r : EventReturn) (m : Module W) (s : Walk W)
      → get_elem? s.modules s.walk ≡ some m
      → rounds (process_ret r m s) < rounds s
  unfolding process_ret
  process_ret-rounds success m s h = omega (arith, get_elem?-lt s.modules s.walk m h)
  process_ret-rounds reconnect m s h = omega (arith, get_elem?-lt s.modules s.walk m h)
  process_ret-rounds reconnect_now m s h = omega (arith, get_elem?-lt s.modules s.walk m h)
  process_ret-rounds unload m s h = omega (
    arith,
    square_drop (length (remove_at s.walk s.modules)) (length s.modules)
        (length-remove_at s.modules s.walk m h),
  )
  process_ret-rounds unknown m s h = omega (arith, get_elem?-lt s.modules s.walk m h)

  round-rounds :
      (k : Kind) (m : Module W) (s : Walk W)
      → get_elem? s.modules s.walk ≡ some m
      → rounds (round k m s).1 < rounds s
  unfolding round
  round-rounds k m s h = elim (Option-cases (m.event k)) [
    | inl null ↦ rw (null, round) (omega (arith, get_elem?-lt s.modules s.walk m h))
    | inr (f, given) ↦
        rw (given, round)
          (unfold call in
            process_ret-rounds (f s.world).0 m
              (record s { world = (f s.world).1; called = m ∷ s.called }) h)
  ]

  -- With more fuel than the bound `rounds`, which counts the square of the loaded modules and the
  -- places that the loop variable has left, the loop over the modules ends, whatever the modules
  -- return.
  pub walk_modules-total :
      (k : Kind) (fuel : ℕ) (s : Walk W)
      → rounds s < fuel
      → (s' : Walk W) × (walk_modules fuel k s ≡ some s')
  unfolding walk_modules
  walk_modules-total k zero s h = absurd (omega arith)
  walk_modules-total k (suc fuel) s h = elim (Option-cases (get_elem? s.modules s.walk)) [
    | inl end ↦ (s, rw (end, walk_modules))
    | inr (m, found) ↦ elim (Bool-cases (round k m s).0) [
      | inl stop ↦ ((round k m s).1, rw (found, stop, walk_modules))
      | inr more ↦
          rw (found, more, walk_modules)
            (walk_modules-total k fuel (round k m s).1 (omega (arith, round-rounds k m s found)))
    ]
  ]
