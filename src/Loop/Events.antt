-- ===== src/Loop/Events.antt =====
-- The events of one idle mask.
use Prim.Native.Nat.{◌^◌}
use mpdcron.Prelude.{
  ℕ, ◌+◌, ◌/◌, ◌%◌, ◌≡◌, refl, ap, ◌∙◌, sym, Bool, true, false, Bool-cases, inl, inr, List, [], ◌∷◌,
  ◌==◌, if◌then◌else◌,
}
use mpdcron.Event
use mpdcron.Event.{Idle, Daemon, event_run}
use mpdcron.Loop.{Ran, run_events}

-- The events whose bit is set, the lowest bit first; `j` is the bit of the head of the list.
unfoldable pub selected : ℕ → ℕ → List Idle → List Idle
selected mask j [] = []
selected mask j (i ∷ names) =
    if (mask / 2 ^ j) % 2 == 1 then i ∷ selected mask (j + 1) names else selected mask (j + 1) names

-- One more event was handled.
abbrev pub record_ran : {W : Type 0} → Bool → Idle → Ran W → Event.Handled W → Ran W
record_ran failed i r h = record {
  failed = failed;
  handled = i ∷ r.handled;
  daemon = record { modules = h.modules; world = h.world };
}

-- Events one after the other, as long as none fails.
module _ {W : Type 0} (answers : Idle → Event.Mpd) where
  pub handled_one : Idle → Ran W → Ran W
  handled_one i r = let h = event_run (answers i) i r.daemon in record_ran h.failed i r h

  unfoldable pub run_until_failure : List Idle → Ran W → Ran W
  run_until_failure [] r = r
  run_until_failure (i ∷ is) r = elim (handled_one i r).failed [
    | true ↦ handled_one i r
    | false ↦ run_until_failure is (handled_one i r)
  ]

  -- The loop over the bits of an idle mask handles the events whose bit is set in ascending order
  -- and stops behind the first that fails.
  pub run_events-eq-run_until_failure :
      (mask j : ℕ) (names : List Idle) (r : Ran W)
      → run_events answers mask j names r ≡ run_until_failure (selected mask j names) r
  unfolding run_events run_until_failure selected handled_one
  run_events-eq-run_until_failure mask j [] r = refl
  run_events-eq-run_until_failure mask j (i ∷ names) r =
      elim (Bool-cases ((mask / 2 ^ j) % 2 == 1)) [
        | inl set ↦ elim (Bool-cases (event_run (answers i) i r.daemon).failed) [
          | inl failed ↦
              rw (set, failed, run_events, selected, run_until_failure)
                (ap (λ (b : Bool). record_ran b i r (event_run (answers i) i r.daemon))
                  (sym failed))
          | inr fine ↦
              rw (set, fine, run_events, selected, run_until_failure)
                (ap
                    (λ (b : Bool).
                      run_events answers mask (j + 1) names
                        (record_ran b i r (event_run (answers i) i r.daemon)))
                    (sym fine)
                  ∙ run_events-eq-run_until_failure mask (j + 1) names (handled_one i r))
        ]
        | inr clear ↦
            rw (clear, run_events, selected) (run_events-eq-run_until_failure mask (j + 1) names r)
      ]
