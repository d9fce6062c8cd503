-- ===== src/Modules/Unloading.antt =====
-- What an unload does to the list of modules and to the rest of the loop.
use mathlib.Core.List.{Perm, perm_middle}
use mathlib.Core.List.Perm
use mpdcron.Prelude.{
  ℕ, zero, suc, ◌+◌, ◌≡◌, refl, ap, subst, sym, ◌∙◌, Bool, false, some, some_inj, Option-cases,
  Bool-cases, inl, inr, List, [], ◌∷◌, ◌++◌, All, length, arith,
}
use mpdcron.Modules.{
  EventReturn, success, reconnect, reconnect_now, unload, unknown, Kind, Module, module_destroy_one,
  remove_at, get_elem?,
}
use mpdcron.Modules.Walk.{Walk, process_ret, stops, round, walk_modules, from_start}
use mpdcron.Modules.Walk.Steps.{
  round-null, round-given, walk_modules-more, walk_modules-stop, walk_modules-end,
}
use mpdcron.Modules.Order.{visit, Stays, walk_of, walk_modules-visit}

remove_at-perm {ℓ} :
    {A : Type ℓ} (n : ℕ) (xs : List A) (x : A)
    → get_elem? xs n ≡ some x
    → Perm (x ∷ remove_at n xs) xs
unfolding get_elem? remove_at
remove_at-perm n [] x h = cc
remove_at-perm zero (y ∷ xs) x h = Perm.cons' (ground arith) Perm.rfl
remove_at-perm (suc n) (y ∷ xs) x h =
    Perm.trans (Perm.swap y x _) (Perm.cons y (remove_at-perm n xs x h))

module _ {W : Type 0} where
  -- The modules that are loaded, and those that were destroyed.
  abbrev pub known : Walk W → List (Module W)
  known s = s.destroyed ++ s.modules

  Pair-eq : {b : Bool} {p : Bool × Walk W} → p.0 ≡ b → p ≡ (b, p.1)
  Pair-eq {b} {p} h = ap (λ (c : Bool). (c, p.1)) h

  process_ret-known :
      (r : EventReturn) (m : Module W) (s : Walk W)
      → get_elem? s.modules s.walk ≡ some m
      → Perm (known (process_ret r m s)) (known s)
  unfolding process_ret
  process_ret-known success m s h = Perm.rfl
  process_ret-known reconnect m s h = Perm.rfl
  process_ret-known reconnect_now m s h = Perm.rfl
  process_ret-known unload m s h =
      Perm.trans (Perm.symm (perm_middle s.destroyed (remove_at s.walk s.modules)))
        (Perm.append Perm.rfl (remove_at-perm s.walk s.modules m h))
  process_ret-known unknown m s h = Perm.rfl

  round-known :
      (k : Kind) (m : Module W) (s : Walk W)
      → get_elem? s.modules s.walk ≡ some m
      → Perm (known (round k m s).1) (known s)
  round-known k m s h = elim (Option-cases (m.event k)) [
    | inl null ↦ rw (round-null k m s null) Perm.rfl
    | inr (f, given) ↦ rw (round-given k m s f given) (
        process_ret-known (f s.world).0 m
          (record s { world = (f s.world).1; called = m ∷ s.called }) h)
  ]

  -- When the loop ends, the modules that were destroyed and those in the list are together those
  -- that were there before, each as often.
  pub walk_modules-known :
      (k : Kind) (fuel : ℕ) (s s' : Walk W)
      → walk_modules fuel k s ≡ some s'
      → Perm (known s') (known s)
  unfolding walk_modules
  walk_modules-known k zero s s' h = cc
  walk_modules-known k (suc fuel) s s' h = elim (Option-cases (get_elem? s.modules s.walk)) [
    | inl end ↦
        let same : s ≡ s' = some_inj (sym (walk_modules-end k s fuel end) ∙ h) in rw same Perm.rfl
    | inr (m, found) ↦ elim (Bool-cases (round k m s).0) [
      | inl stop ↦
          let same : (round k m s).1 ≡ s' =
            some_inj
              (sym (walk_modules-stop k m s fuel (round k m s).1 found (Pair-eq stop)) ∙ h) in
          subst (λ (t : Walk W). Perm (known t) (known s)) same (round-known k m s found)
      | inr more ↦
          let rest =
            walk_modules-known k fuel (round k m s).1 s'
              (sym (walk_modules-more k m s fuel (round k m s).1 found (Pair-eq more)) ∙ h) in
          Perm.trans rest (round-known k m s found)
    ]
  ]

  -- The module always asks to be unloaded.
  abbrev pub Leaves : Kind → Module W → Type 0
  Leaves k m = (f : W → EventReturn × W) × (m.event k ≡ some f) × ((w : W) → (f w).0 ≡ unload)

  -- When the first module of the list always asks to be unloaded and those behind the second never
  -- do, the second does not see the event, and the loop goes on with the third behind the destroy
  -- function of the first.
  pub unload_skips_next :
      (k : Kind) (m n : Module W) (rest : List (Module W)) (world : W)
      → (leaves : Leaves k m) → All (Stays k) rest
      → (p : ℕ) × (walk_modules (suc (length rest + 1)) k (from_start (m ∷ n ∷ rest) world)
          ≡ some (
              walk_of (n ∷ rest) (m ∷ []) p (
                visit k rest (record {
                  failed = false;
                  world = module_destroy_one m (leaves.0 world).1;
                  called = m ∷ [];
                }))))
  unfolding get_elem? remove_at process_ret
  unload_skips_next k m n rest world (f, given, leaves) stay =
      let (p, end) =
        walk_modules-visit k rest (n ∷ rest) (m ∷ []) 1 (length rest + 1)
          (record { failed = false; world = module_destroy_one m (f world).1; called = m ∷ [] })
          refl (omega arith) stay in
      (
        p,
        walk_modules-more k m (from_start (m ∷ n ∷ rest) world) (length rest + 1)
              (walk_of (n ∷ rest) (m ∷ []) 1 (record {
                failed = false;
                world = module_destroy_one m (f world).1;
                called = m ∷ [];
              }))
              refl
              (round-given k m (from_start (m ∷ n ∷ rest) world) f given
                ∙ ap
                    (λ (r : EventReturn). (
                      stops r,
                      process_ret r m (record (from_start (m ∷ n ∷ rest) world) {
                        world = (f world).1;
                        called = m ∷ [];
                      }),
                    ))
                    (leaves world))
            ∙ end,
      )
