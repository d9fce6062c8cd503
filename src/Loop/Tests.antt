-- ===== src/Loop/Tests.antt =====
-- The idle loop on concrete answers of the player daemon.
use mpdcron.Prelude.{ℕ, ◌≡◌, refl, true, false, none, [], ◌∷◌, arith}
use mpdcron.Event
use mpdcron.Event.{Idle, known, Daemon, event_run}
use mpdcron.Modules.{database, stored_playlist, queue}
use mpdcron.Loop.{
  Loop, Mpd, aborted, running, Ran, run_events, loop_idle, reconnect_timer, loop_connect,
  loop_disconnect, events,
}
use mpdcron.Loop.Safety.{
  IsConsistent, Ensures, initial, loop_idle-IsConsistent, reconnect_timer-IsConsistent,
  reconnect_timer-aborts, loop_connect-IsConsistent, loop_connect-forgets,
}
use mpdcron.Loop.Events.{selected, run_until_failure, run_events-eq-run_until_failure}

abbrev healthy : Mpd
healthy = record {
  allocated = true;
  connected = true;
  password_accepted = none;
  idle_sent = true;
  watch_id = 3;
  timer_id = 4;
}

abbrev broken : Mpd
broken = record healthy { idle_sent = false }

abbrev watching : Loop
watching = record { idle_sid = 3; reconnect_sid = 0; conn = true; watches = 1; timers = 0 }

abbrev waiting : Loop
waiting = record { idle_sid = 0; reconnect_sid = 4; conn = false; watches = 0; timers = 1 }

loop_idle-IsConsistent_example : Ensures IsConsistent (loop_idle healthy (events true) watching)
loop_idle-IsConsistent_example =
    loop_idle-IsConsistent healthy (omega arith) (omega arith) (events true) watching (ground arith)
      (omega arith)

reconnect_timer-IsConsistent_example : Ensures IsConsistent (reconnect_timer healthy waiting)
reconnect_timer-IsConsistent_example =
    reconnect_timer-IsConsistent healthy (omega arith) (omega arith) waiting (ground arith)
      (omega arith) refl

reconnect_timer-aborts_example : reconnect_timer broken waiting ≡ aborted
reconnect_timer-aborts_example =
    reconnect_timer-aborts broken (omega arith) (omega arith) waiting (ground arith) (omega arith)
      refl refl refl refl

loop_connect-IsConsistent_example : Ensures IsConsistent (loop_connect healthy initial)
loop_connect-IsConsistent_example =
    loop_connect-IsConsistent healthy (omega arith) (omega arith) refl

loop_connect-forgets_example :
    (s : Loop) × (loop_connect broken initial ≡ running s) × ((loop_disconnect s).timers ≡ 1)
loop_connect-forgets_example = loop_connect-forgets broken refl refl refl refl

abbrev silent : Idle → Event.Mpd
silent i = record {
  stats = false;
  status = false;
  commands_sent = false;
  player_status = none;
  next_response = false;
  current_song = false;
  finished = false;
}

abbrev before : Ran ℕ
before = record { failed = false; handled = []; daemon = record { modules = []; world = 0 } }

-- The mask 5 names the first and the third event.
run_events-eq-run_until_failure_example :
    run_events silent 5 0 (known database ∷ known stored_playlist ∷ known queue ∷ []) before
    ≡ run_until_failure silent (known database ∷ known queue ∷ []) before
unfolding selected
run_events-eq-run_until_failure_example =
    run_events-eq-run_until_failure silent 5 0
      (known database ∷ known stored_playlist ∷ known queue ∷ []) before
