-- ===== src/Loop.antt =====
-- The connection to the player daemon and its idle loop: cron-loop.c.
pub mod Safety
pub mod Events
mod Tests
use Prim.Native.Nat.{◌^◌}
use mpdcron.Event
use mpdcron.Event.{Idle, Daemon, event_run}
use mpdcron.Prelude.{
  ℕ, ◌+◌, ◌-◌, ◌/◌, ◌%◌, Bool, true, false, ◌&&◌, ◌||◌, not, Option, none, some, List, [], ◌∷◌,
  ◌==◌, if◌then◌else◌,
}

-- The static variables of cron-loop.c; `conn` says whether there is a connection. The last two fields
-- are the main loop's: the watches of the socket and the reconnection timers that are attached.
pub record Loop : Type 0 where
  pub idle_sid : ℕ
  pub reconnect_sid : ℕ
  pub conn : Bool
  pub watches : ℕ
  pub timers : ℕ

-- `exited` is exit(EXIT_FAILURE), `aborted` a failed g_assert.
pub data Outcome : Type 0 where
  exited aborted : Outcome
  running : Loop → Outcome

abbrev pub assert : Bool → Outcome → Outcome
assert true rest = rest
assert false rest = aborted

infixl 5 ◌>>=◌
abbrev pub ◌>>=◌ : Outcome → (Loop → Outcome) → Outcome
exited >>= f = exited
aborted >>= f = aborted
running s >>= f = f s

-- What libmpdclient and GLib answer while one callback runs: whether the connection object could be
-- made and has no error, whether the password, if one is configured, is accepted, whether the idle
-- command was sent (or failed with no error set), and the ids of the sources that are attached.
pub record Mpd : Type 0 where
  pub allocated : Bool
  pub connected : Bool
  pub password_accepted : Option Bool
  pub idle_sent : Bool
  pub watch_id : ℕ
  pub timer_id : ℕ

pub loop_failure : Loop → Outcome
loop_failure s = assert s.conn (running (record s { conn = false }))

pub loop_schedule_reconnect : Mpd → Loop → Outcome
loop_schedule_reconnect mpd s =
    assert (s.reconnect_sid == 0)
      (running (record s { reconnect_sid = mpd.timer_id; timers = s.timers + 1 }))

pub loop_schedule_idle : Mpd → Loop → Outcome
unfolding loop_failure loop_schedule_reconnect
loop_schedule_idle mpd s = assert (s.idle_sid == 0) (
    assert s.conn (
      if not mpd.idle_sent
      then (do s' ← loop_failure s; loop_schedule_reconnect mpd s')
      else running (record s { idle_sid = mpd.watch_id; watches = s.watches + 1 })))

-- What loop_reconnect does before it schedules the idle command: the connection, or none.
unfoldable pub connect : Mpd → Loop → Outcome
unfolding loop_failure
connect mpd s =
    if not mpd.allocated
    then exited
    else if not mpd.connected
    then loop_failure (record s { conn = true })
    else elim mpd.password_accepted [
      | none ↦ running (record s { conn = true })
      | some accepted ↦ if accepted then running (record s { conn = true }) else exited
    ]

schedule_connected : Mpd → Loop → Outcome
unfolding loop_schedule_idle
schedule_connected mpd s = do
  s' ← loop_schedule_idle mpd s
  running (record s' { reconnect_sid = 0 })

-- loop_reconnect, and whether it returns TRUE: no connection was made, and it is to be called again.
unfoldable pub loop_reconnect : Mpd → Loop → Outcome × Bool
unfolding connect schedule_connected
loop_reconnect mpd s = (
  (connect mpd s >>= λ s'. if s'.conn then schedule_connected mpd s' else running s'),
  not mpd.connected,
)

-- The reconnection timer calls loop_reconnect; GLib takes it off when that returns FALSE.
unfoldable pub reconnect_timer : Mpd → Loop → Outcome
unfolding loop_reconnect
reconnect_timer mpd s =
    let (o, again) = loop_reconnect mpd s in
    if again then o else (do s' ← o; running (record s' { timers = s'.timers - 1 }))

unfoldable pub loop_connect : Mpd → Loop → Outcome
unfolding loop_reconnect loop_schedule_reconnect
loop_connect mpd s =
    let (o, again) = loop_reconnect mpd s in
    if again then (do s' ← o; loop_schedule_reconnect mpd s') else o

-- How the response to the idle command ends: `events` says whether an event of its mask failed.
pub data Idled : Type 0 where
  unknown_command connection_error no_error : Idled
  events : Bool → Idled

fail_and_reconnect : Mpd → Loop → Outcome
unfolding loop_failure loop_schedule_reconnect
fail_and_reconnect mpd s = do s' ← loop_failure s; loop_schedule_reconnect mpd s'

idled : Mpd → Idled → Loop → Outcome
unfolding fail_and_reconnect loop_schedule_idle
idled mpd unknown_command s = exited
idled mpd connection_error s = fail_and_reconnect mpd s
idled mpd no_error s = loop_schedule_idle mpd s
idled mpd (events failed) s = if failed then fail_and_reconnect mpd s else loop_schedule_idle mpd s

-- One bit of the mask, env_clearenv and the event; the loop goes on behind an event that did not fail.
pub record Ran (W : Type 0) : Type 0 where
  pub failed : Bool
  pub handled : List Idle
  pub daemon : Daemon W

module _ {W : Type 0} (answers : Idle → Event.Mpd) (mask : ℕ) where
  -- The loop over the bits that mpd_idle_name names; `handled` lists the events, the last one first.
  unfoldable pub run_events : ℕ → List Idle → Ran W → Ran W
  run_events j [] r = r
  run_events j (i ∷ names) r =
      let skip = run_events (j + 1) names r in
      let h = event_run (answers i) i r.daemon in
      let ran : Ran W = record {
        failed = h.failed;
        handled = i ∷ r.handled;
        daemon = record { modules = h.modules; world = h.world };
      } in
      let more = run_events (j + 1) names ran in
      if not ((mask / 2 ^ j) % 2 == 1) then skip else if h.failed then ran else more

-- The watch calls loop_idle, which always returns FALSE, so the watch goes.
unfoldable pub loop_idle : Mpd → Idled → Loop → Outcome
unfolding idled
loop_idle mpd answer s = assert (not (s.idle_sid == 0)) (
    assert s.conn (do
      s' ← idled mpd answer (record s { idle_sid = 0 })
      running (record s' { watches = s'.watches - 1 })))

-- loop_disconnect; g_source_remove takes off the source with that id.
unfoldable pub loop_disconnect : Loop → Loop
loop_disconnect s =
    let s = if not (s.idle_sid == 0) then record s { watches = s.watches - 1 } else s in
    let s = if not (s.reconnect_sid == 0) then record s { timers = s.timers - 1 } else s in
    record s { conn = false }
