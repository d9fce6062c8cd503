-- ===== src/Loop/Safety.antt =====
-- The connection, the watch and the timer stay consistent.
use mpdcron.Prelude.{◌≡◌, refl, ◌≢◌, ◌<◌, ◌⊎◌, true, false, none, arith}
use mpdcron.Loop.{
  Loop, Outcome, exited, aborted, running, Mpd, reconnect_timer, loop_connect, loop_idle,
  loop_disconnect, Idled, unknown_command, connection_error, no_error, events,
}

-- Connected with a watch, or not connected with a timer.
abbrev pub IsConsistent : Loop → Type 0
IsConsistent s =
    ((s.conn ≡ true) × (s.idle_sid ≢ 0) × (s.watches ≡ 1) × (s.reconnect_sid ≡ 0) × (s.timers ≡ 0))
    ⊎ ((s.conn ≡ false)
        × (s.idle_sid ≡ 0)
        × (s.watches ≡ 0)
        × (s.reconnect_sid ≢ 0)
        × (s.timers ≡ 1))

-- The program goes on in such a state, or it exits on purpose.
abbrev pub Ensures : (Loop → Type 0) → Outcome → Type 0
Ensures P exited = Unit
Ensures P aborted = ⊥
Ensures P (running s) = P s

module _ (mpd : Mpd) (watch : 0 < mpd.watch_id) (timer : 0 < mpd.timer_id) where
  -- From a connection with its watch, however the idle command ends and whatever a new connection
  -- does, no assertion of loop_idle fails, and there is a connection with a watch or no connection
  -- with a reconnection timer, unless the program exits; source ids are positive.
  pub loop_idle-IsConsistent :
      (answer : Idled) (s : Loop)
      → IsConsistent s
      → 0 < s.watches
      → Ensures IsConsistent (loop_idle mpd answer s)
  unfolding loop_idle
  loop_idle-IsConsistent unknown_command s h w = ground arith
  loop_idle-IsConsistent connection_error s h w = ground arith
  loop_idle-IsConsistent no_error s h w = ground arith
  loop_idle-IsConsistent (events failed) s h w = ground arith

  -- Without a connection and with the reconnection timer, a reconnection whose idle command is sent
  -- fails no assertion and leaves a connection with a watch or no connection with the timer, unless
  -- the program exits; source ids are positive.
  pub reconnect_timer-IsConsistent :
      (s : Loop)
      → IsConsistent s
      → 0 < s.timers
      → mpd.idle_sent ≡ true
      → Ensures IsConsistent (reconnect_timer mpd s)
  unfolding reconnect_timer
  reconnect_timer-IsConsistent s h w sent = ground arith

  -- When the reconnection timer fires without a connection and makes one without a password and the
  -- idle command cannot be sent, an assertion fails.
  pub reconnect_timer-aborts :
      (s : Loop)
      → IsConsistent s
      → 0 < s.timers
      → mpd.allocated ≡ true
      → mpd.connected ≡ true
      → mpd.password_accepted ≡ none
      → mpd.idle_sent ≡ false
      → reconnect_timer mpd s ≡ aborted
  unfolding reconnect_timer
  reconnect_timer-aborts s h w alloc conn pw sent = ground arith

abbrev pub initial : Loop
initial = record { idle_sid = 0; reconnect_sid = 0; conn = false; watches = 0; timers = 0 }

-- A first connection whose idle command is sent leaves a connection with a watch or no connection
-- with a timer, unless the program exits; source ids are positive.
pub loop_connect-IsConsistent :
    (mpd : Mpd)
    → 0 < mpd.watch_id
    → 0 < mpd.timer_id
    → mpd.idle_sent ≡ true
    → Ensures IsConsistent (loop_connect mpd initial)
unfolding loop_connect
loop_connect-IsConsistent mpd w t sent = ground arith

-- When the first connection is made without a password and the idle command cannot be sent, the
-- timer that is set is not removed by loop_disconnect.
pub loop_connect-forgets :
    (mpd : Mpd)
    → mpd.allocated ≡ true
    → mpd.connected ≡ true
    → mpd.password_accepted ≡ none
    → mpd.idle_sent ≡ false
    → (s : Loop) × (loop_connect mpd initial ≡ running s) × ((loop_disconnect s).timers ≡ 1)
unfolding loop_connect loop_disconnect
loop_connect-forgets mpd alloc conn pw sent = (record initial { timers = 1 }, ground arith, refl)

-- Loop_disconnect leaves no connection, no watch and no timer of a state that has a connection with
-- a watch or no connection with a timer.
pub loop_disconnect-clears :
    (s : Loop)
    → IsConsistent s
    → ((loop_disconnect s).watches ≡ 0)
      × ((loop_disconnect s).timers ≡ 0)
      × ((loop_disconnect s).conn ≡ false)
unfolding loop_disconnect
loop_disconnect-clears s h = ground arith
