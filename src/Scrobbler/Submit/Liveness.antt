-- ===== src/Scrobbler/Submit/Liveness.antt =====
-- A scrobbler whose server answers well submits its songs.
use mpdcron.Prelude.{
  ℕ, suc, ◌+◌, ◌*◌, ◌≤◌, ◌<◌, ◌≡◌, refl, true, Bool-cases, inl, inr, is_empty, List, length, zero,
  arith,
}
use mpdcron.Scrobbler.Types.{
  State, nothing, handshake, ready, submitting, Config, Scrobbler, Env, Effect, Outcome, done,
  aborted,
}
use mpdcron.Scrobbler.Submit.System.{
  handle, Armed, arm, consume, IsPossible, IsAnnounceable, System, Reach,
}
use mpdcron.Scrobbler.Submit.Consistent.{IsConsistent, Good}
use mpdcron.Scrobbler.Submit.Handlers.{handle-Good}
use mpdcron.Scrobbler.Submit.Safety.{Reach-IsConsistent}
use mpdcron.Scrobbler.Submit.Progress.{
  Reply, good_event, work, possible, length-some, Leaves, Leaves-mono, progress, phase_le,
}

-- So many good events, one after another from the time `n`, each of them possible: at the time `k`
-- the server answers `replies k`, and the other libraries return `envs k` to the handler.
pub data Served (envs : ℕ → Env) (replies : ℕ → Reply) : ℕ → ℕ → System → System → Type 0 where
  served_none : (k : ℕ) (t : System) → Served envs replies k 0 t t
  served_next :
      (k n : ℕ) (s s' : Scrobbler) (a : Armed) (es : List Effect) (t : System)
      → IsPossible (good_event (replies k) s.state) a
      → handle (envs k) (good_event (replies k) s.state) s ≡ done s' es
      → Served envs replies
          (suc k)
          n
          (record { scrobbler = s'; armed = arm es (consume (good_event (replies k) s.state) a) })
          t
      → Served envs replies k (suc n) (record { scrobbler = s; armed = a }) t

pub record Drains (envs : ℕ → Env) (replies : ℕ → Reply) (time bound : ℕ) (t : System)
    : Type 0 where
  pub steps : ℕ
  pub last : System
  pub within : steps ≤ bound
  pub run : Served envs replies time steps t last
  pub is_drained : is_empty last.scrobbler.queue ≡ true

good_event-IsAnnounceable : (reply : Reply) (st : State) → IsAnnounceable (good_event reply st)
good_event-IsAnnounceable reply nothing = tt
good_event-IsAnnounceable reply handshake = tt
good_event-IsAnnounceable reply ready = tt
good_event-IsAnnounceable reply submitting = tt

module _ (envs : ℕ → Env) (replies : ℕ → Reply) (fresh : (n : ℕ) → 0 < (envs n).source_id) where
  empty-Drains :
      (k bound : ℕ) (t : System) → is_empty t.scrobbler.queue ≡ true → Drains envs replies k bound t
  empty-Drains k bound t no_song = record {
    steps = 0;
    last = t;
    within = omega arith;
    run = served_none k t;
    is_drained = no_song;
  }

  step-Drains :
      (k fuel : ℕ) (s : Scrobbler) (a : Armed) (o : Outcome)
      → IsPossible (good_event (replies k) s.state) a
      → handle (envs k) (good_event (replies k) s.state) s ≡ o
      → Good (consume (good_event (replies k) s.state) a) o
      → Leaves (suc fuel) o
      → ((s' : Scrobbler) (a' : Armed)
          → IsConsistent s' a'
          → work s' ≤ fuel
          → Drains envs replies (suc k) fuel (record { scrobbler = s'; armed = a' }))
      → Drains envs replies k (suc fuel) (record { scrobbler = s; armed = a })
  step-Drains k fuel s a aborted possible e good less later = absurd good
  step-Drains k fuel s a (done s' es) possible e good less later =
      let drained =
        later s' (arm es (consume (good_event (replies k) s.state) a)) good (omega arith) in
      record {
        steps = suc drained.steps;
        last = drained.last;
        within = omega (arith, drained.within);
        run = served_next k drained.steps s s' a es drained.last possible e drained.run;
        is_drained = drained.is_drained;
      }

  consistent-Drains :
      (fuel k : ℕ) (s : Scrobbler) (a : Armed)
      → IsConsistent s a
      → work s ≤ fuel
      → Drains envs replies k fuel (record { scrobbler = s; armed = a })
  consistent-Drains zero k s a h enough = elim (Bool-cases (is_empty s.queue)) [
    | inl no_song ↦ empty-Drains k zero (record { scrobbler = s; armed = a }) no_song
    | inr some_song ↦ absurd (omega (arith, enough, length-some s.queue some_song))
  ]
  consistent-Drains (suc fuel) k s a h enough = elim (Bool-cases (is_empty s.queue)) [
    | inl no_song ↦ empty-Drains k (suc fuel) (record { scrobbler = s; armed = a }) no_song
    | inr some_song ↦
        let can = possible (replies k) s.state s a h some_song refl in
        step-Drains k fuel s a (handle (envs k) (good_event (replies k) s.state) s) can refl
          (handle-Good (envs k) (fresh k) (good_event (replies k) s.state) s a h can
            (good_event-IsAnnounceable (replies k) s.state))
          (Leaves-mono (work s) (suc fuel) _ enough
            (progress s.state (envs k) (replies k) s refl some_song h.pending))
          (consistent-Drains fuel (suc k))
  ]

  -- From every system that the main loop can bring about, if the timers fire and the server answers
  -- each handshake with four lines without zero bytes, of which the first begins with OK and the
  -- addresses are not empty, and each submission with a line OK, then, whatever those lines and the
  -- texts behind them are at each time and whatever the other libraries return to the handlers,
  -- after at most four events and three for each song in the queue, each of which is possible in
  -- its turn and ends without a failed assertion, the queue is empty; timer ids are positive.
  pub Reach-Drains :
      {config : Config} (t : System)
      → Reach config t
      → Drains envs replies 0 (3 * length t.scrobbler.queue + 4) t
  Reach-Drains t r =
      consistent-Drains (3 * length t.scrobbler.queue + 4) 0 t.scrobbler t.armed
        (Reach-IsConsistent r) (omega (arith, phase_le t.scrobbler.state t.scrobbler.pending))
