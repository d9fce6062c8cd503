-- ===== src/Modules/Order.antt =====
-- Which modules an event reaches, in which order, and what the daemon learns from them.
use mpdcron.Prelude.{
  ℕ, zero, suc, ◌+◌, ◌<◌, ◌≡◌, ◌≢◌, refl, ap, sym, ◌∙◌, Bool, true, false, none, some, Option-cases,
  Bool-cases, inl, inr, List, [], ◌∷◌, ◌++◌, All, drop, length, arith,
}
use mpdcron.Modules.{
  EventReturn, success, reconnect, reconnect_now, unload, unknown, Kind, Module, get_elem?,
}
use mpdcron.Modules.Walk.{Walk, process_ret, stops, walk_modules, from_start}
use mpdcron.Modules.Walk.Steps.{
  round-null, round-given, walk_modules-more, walk_modules-stop, walk_modules-end,
}
use mpdcron.Modules.Positions.{get_elem?-drop, get_elem?-drop_end, drop-next}

-- The same event, handed to each module of a list in turn: whether the last answer asked for a new
-- connection, the world, and the modules that were called, the last one first.
pub record Visit (W : Type 0) : Type 0 where
  pub failed : Bool
  pub world : W
  pub called : List (Module W)

abbrev pub fails : EventReturn → Bool
fails reconnect = true
fails reconnect_now = true
fails _ = false

fails_of_stops : (r : EventReturn) → stops r ≡ true → fails r ≡ true
fails_of_stops r h = ground arith

module _ {W : Type 0} where
  unfoldable pub visit : Kind → List (Module W) → Visit W → Visit W
  visit k [] v = v
  visit k (m ∷ ms) v = elim (m.event k) [
    | none ↦ visit k ms v
    | some f ↦ elim (stops (f v.world).0) [
      | true ↦ record { failed = true; world = (f v.world).1; called = m ∷ v.called }
      | false ↦
          visit k ms
            (record { failed = fails (f v.world).0; world = (f v.world).1; called = m ∷ v.called })
    ]
  ]

  -- The module was called and its answer kept.
  abbrev pub visited : Module W → (W → EventReturn × W) → Visit W → Visit W
  visited m f v = record {
    failed = fails (f v.world).0;
    world = (f v.world).1;
    called = m ∷ v.called;
  }

  module _ (k : Kind) (m : Module W) (ms : List (Module W)) (v : Visit W) where
    visit-null : m.event k ≡ none → visit k (m ∷ ms) v ≡ visit k ms v
    unfolding visit
    visit-null null = rw (null, visit)

    visit-now :
        (f : W → EventReturn × W)
        → m.event k ≡ some f
        → stops (f v.world).0 ≡ true
        → visit k (m ∷ ms) v ≡ visited m f v
    unfolding visit
    visit-now f given now = rw (given, now, fails_of_stops (f v.world).0 now, visit)

    visit-more :
        (f : W → EventReturn × W)
        → m.event k ≡ some f
        → stops (f v.world).0 ≡ false
        → visit k (m ∷ ms) v ≡ visit k ms (visited m f v)
    unfolding visit
    visit-more f given more = rw (given, more, visit)

  -- The module never asks to be unloaded.
  abbrev pub Stays : Kind → Module W → Type 0
  Stays k m = (f : W → EventReturn × W) → m.event k ≡ some f → (w : W) → (f w).0 ≢ unload

  abbrev pub walk_of : List (Module W) → List (Module W) → ℕ → Visit W → Walk W
  walk_of modules destroyed walk v = record {
    modules = modules;
    walk = walk;
    failed = v.failed;
    world = v.world;
    called = v.called;
    destroyed = destroyed;
  }

  process_ret-walk_of :
      (r : EventReturn) (m : Module W) (mods d : List (Module W)) (n : ℕ) (b : Bool) (w : W)
      (cs : List (Module W))
      → r ≢ unload
      → process_ret r m (walk_of mods d n (record { failed = b; world = w; called = cs }))
        ≡ walk_of mods d (n + 1) (record { failed = fails r; world = w; called = cs })
  unfolding process_ret
  process_ret-walk_of success m mods d n b w cs h = refl
  process_ret-walk_of reconnect m mods d n b w cs h = refl
  process_ret-walk_of reconnect_now m mods d n b w cs h = refl
  process_ret-walk_of unload m mods d n b w cs h = absurd (h refl)
  process_ret-walk_of unknown m mods d n b w cs h = refl

  -- From any place of the list on: while no module unloads, the loop is the visit in list order.
  pub walk_modules-visit :
      (k : Kind) (ms mods d : List (Module W)) (n fuel : ℕ) (v : Visit W)
      → drop n mods ≡ ms
      → length ms < fuel
      → All (Stays k) ms
      → (n' : ℕ) × (walk_modules fuel k (walk_of mods d n v)
          ≡ some (walk_of mods d n' (visit k ms v)))
  unfolding visit
  walk_modules-visit k ms mods d n zero v at h stay = absurd (omega arith)
  walk_modules-visit k [] mods d n (suc fuel) v at h stay =
      (n, walk_modules-end k (walk_of mods d n v) fuel (get_elem?-drop_end mods n at))
  walk_modules-visit k (m ∷ ms) mods d n (suc fuel) v at h stay = elim (Option-cases (m.event k)) [
    | inl null ↦
        let (n', rest) = walk_modules-visit k ms mods d (n + 1) fuel v next (omega arith) stay.1 in
        (
          n',
          walk_modules-more k m s fuel (walk_of mods d (n + 1) v) found (round-null k m s null)
              ∙ rest
              ∙ ap (λ (u : Visit W). some (walk_of mods d n' u)) (sym (visit-null k m ms v null)),
        )
    | inr (f, given) ↦
        let goes_on =
          round-given k m s f given
          ∙ ap (λ (t : Walk W). (stops (f v.world).0, t))
              (process_ret-walk_of (f v.world).0 m mods d n v.failed (f v.world).1 (m ∷ v.called)
                (stay.0 f given v.world)) in
        elim (Bool-cases (stops (f v.world).0)) [
          | inl now ↦ (
            n + 1,
            walk_modules-stop k m s fuel (walk_of mods d (n + 1) (visited m f v)) found
                  (goes_on ∙ ap (λ (b : Bool). (b, walk_of mods d (n + 1) (visited m f v))) now)
                ∙ ap (λ (u : Visit W). some (walk_of mods d (n + 1) u))
                    (sym (visit-now k m ms v f given now)),
          )
          | inr more ↦
              let (n', rest) =
                walk_modules-visit k ms mods d (n + 1) fuel (visited m f v) next (omega arith)
                  stay.1 in
              (
                n',
                walk_modules-more k m s fuel (walk_of mods d (n + 1) (visited m f v)) found (
                      goes_on ∙ ap (λ (b : Bool). (b, walk_of mods d (n + 1) (visited m f v))) more)
                    ∙ rest
                    ∙ ap (λ (u : Visit W). some (walk_of mods d n' u))
                        (sym (visit-more k m ms v f given more)),
              )
        ]
  ]
    where
      s : Walk W
      s = walk_of mods d n v

      found : get_elem? mods n ≡ some m
      found = get_elem?-drop mods n m ms at

      next : drop (n + 1) mods ≡ ms
      next = drop-next mods n m ms at

  unfoldable pub nothing_visited : W → Visit W
  nothing_visited world = record { failed = false; world = world; called = [] }

  -- While no module asks to be unloaded, an event is handed to the modules that have a function for
  -- it in list order, up to the first that asks for a new connection at once; the return value is
  -- what the last called module asked for, and the list of modules stays as it was.
  pub walk_modules-eq-visit :
      (k : Kind) (modules : List (Module W)) (world : W)
      → All (Stays k) modules
      → (n : ℕ) × (walk_modules (length modules + 1) k (from_start modules world)
          ≡ some (walk_of modules [] n (visit k modules (nothing_visited world))))
  unfolding nothing_visited
  walk_modules-eq-visit k modules world stay =
      walk_modules-visit k modules modules [] 0 (length modules + 1) (nothing_visited world) refl
        (omega arith) stay

  -- The last module has a function for the event, and it never asks for anything.
  abbrev pub IsContent : Kind → Module W → Type 0
  IsContent k m = (f : W → EventReturn × W) × (m.event k ≡ some f) × ((w : W) → (f w).0 ≡ success)

  -- No module asks for a new connection at once.
  abbrev pub IsPatient : Kind → Module W → Type 0
  IsPatient k m = (f : W → EventReturn × W) → m.event k ≡ some f → (w : W) → (f w).0 ≢ reconnect_now

  visit-last :
      (k : Kind) (ms : List (Module W)) (m : Module W) (v : Visit W)
      → All (IsPatient k) ms
      → IsContent k m
      → (visit k (ms ++ (m ∷ [])) v).failed ≡ false
  unfolding visit
  visit-last k [] m v patient (f, given, content) =
      rw (visit-more k m [] v f given (ap stops (content v.world))) (ap fails (content v.world))
  visit-last k (x ∷ ms) m v patient content = elim (Option-cases (x.event k)) [
    | inl null ↦ rw (visit-null k x (ms ++ (m ∷ [])) v null) (visit-last k ms m v patient.1 content)
    | inr (f, given) ↦
        rw
          (visit-more k x (ms ++ (m ∷ [])) v f given
            (goes_on (f v.world).0 (patient.0 f given v.world)))
          (visit-last k ms m (visited x f v) patient.1 content)
  ]
    where
      goes_on : (r : EventReturn) → r ≢ reconnect_now → stops r ≡ false
      goes_on r h = ground arith

  -- When no module asks to be unloaded, none before the last asks for a new connection at once, and
  -- the last has a function for the event that always succeeds, the loop over the modules ends and
  -- tells the daemon of no failure, whatever the modules before the last asked for.
  pub walk_modules-last :
      (k : Kind) (ms : List (Module W)) (m : Module W) (world : W)
      → All (Stays k) (ms ++ (m ∷ []))
      → All (IsPatient k) ms
      → IsContent k m
      → (s : Walk W) × (walk_modules
            (length (ms ++ (m ∷ [])) + 1)
            k
            (from_start (ms ++ (m ∷ [])) world)
          ≡ some s)
        × (s.failed ≡ false)
  walk_modules-last k ms m world stay patient content =
      let (n, ends) = walk_modules-eq-visit k (ms ++ (m ∷ [])) world stay in
      (
        walk_of (ms ++ (m ∷ [])) [] n (visit k (ms ++ (m ∷ [])) (nothing_visited world)),
        ends,
        visit-last k ms m (nothing_visited world) patient content,
      )
