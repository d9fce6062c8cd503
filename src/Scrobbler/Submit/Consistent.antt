-- ===== src/Scrobbler/Submit/Consistent.antt =====
-- Consistency of a scrobbler with the timers and requests of the main loop.
use mpdcron.Prelude.{
  ◌≤◌, ◌<◌, ◌≡◌, ◌≢◌, ◌⊎◌, true, false, ◌&&◌, ◌||◌, not, List, length, is_empty, is_some,
}
use mpdcron.Scrobbler.Record.{record_is_defined}
use mpdcron.Scrobbler.Types.{
  State, nothing, handshake, ready, submitting, Scrobbler, Effect, Outcome, aborted, done,
}
use mpdcron.Scrobbler.Submit.{max_interval}
use mpdcron.Scrobbler.Submit.System.{Armed, arm}

abbrev pub HasWork : Scrobbler → Type 0
HasWork s = (not (is_empty s.queue) || record_is_defined s.now_playing) ≡ true

-- What is set and under way, phase by phase.
abbrev pub InPhase : State → Scrobbler → Armed → Type 0
InPhase nothing s a =
    (s.handshake_source_id ≢ 0)
    × (s.submit_source_id ≡ 0)
    × (a.handshake_timers ≡ 1)
    × (a.submit_timers ≡ 0)
    × (a.handshake_requests ≡ 0)
    × (a.submit_requests ≡ 0)
InPhase handshake s a =
    (s.handshake_source_id ≡ 0)
    × (s.submit_source_id ≡ 0)
    × (a.handshake_timers ≡ 0)
    × (a.submit_timers ≡ 0)
    × (a.handshake_requests ≡ 1)
    × (a.submit_requests ≡ 0)
InPhase ready s a =
    (s.handshake_source_id ≡ 0)
    × (((s.submit_source_id ≡ 0)
          × (a.submit_timers ≡ 0)
          × ((not (is_empty s.queue) || record_is_defined s.now_playing) ≡ false))
        ⊎ ((s.submit_source_id ≢ 0) × (a.submit_timers ≡ 1) × HasWork s))
    × (a.handshake_timers ≡ 0)
    × (a.handshake_requests ≡ 0)
    × (a.submit_requests ≡ 0)
InPhase submitting s a =
    (s.handshake_source_id ≡ 0)
    × (s.submit_source_id ≡ 0)
    × (a.handshake_timers ≡ 0)
    × (a.submit_timers ≡ 0)
    × (a.handshake_requests ≡ 0)
    × (a.submit_requests ≡ 1)
    × ((0 < s.pending) ⊎ ((s.pending ≡ 0) × (record_is_defined s.now_playing ≡ true)))

abbrev pub HasSession : State → Scrobbler → Type 0
HasSession ready s = (is_some s.session && is_some s.nowplay_url && is_some s.submit_url) ≡ true
HasSession submitting s =
    (is_some s.session && is_some s.nowplay_url && is_some s.submit_url) ≡ true
HasSession _ s = Unit

pub record IsConsistent (s : Scrobbler) (a : Armed) : Type 0 where
  pub phase : InPhase s.state s a
  pub session : HasSession s.state s
  pub pending : s.pending ≤ length s.queue
  pub batch : s.pending ≤ 10
  pub interval_pos : 0 < s.interval
  pub interval_le : s.interval ≤ max_interval

-- The outcome is a state for which `P` holds, and not an abort.
abbrev pub Ensures : (Scrobbler → List Effect → Type 0) → Outcome → Type 0
Ensures P aborted = ⊥
Ensures P (done s es) = P s es

-- The handler leaves a consistent scrobbler; `a` is what was armed before its own calls.
abbrev pub Good : Armed → Outcome → Type 0
Good a = Ensures λ s es. IsConsistent s (arm es a)
