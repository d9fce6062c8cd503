-- ===== src/Event/Tests.antt =====
-- Events on concrete answers of the player daemon.
use mpdcron.Prelude.{ℕ, ◌≡◌, true, false, some, [], ◌∷◌}
use mpdcron.Modules.{player}
use mpdcron.Event.{
  Mpd, stop, known, Daemon, modules_run, hooker_run_hook, event_run, env_status_currentsong,
  has_song,
}
use mpdcron.Event.Answers.{answered, event_run-answered}

abbrev stopped : Mpd
stopped = record {
  stats = true;
  status = true;
  commands_sent = true;
  player_status = some stop;
  next_response = false;
  current_song = false;
  finished = true;
}

abbrev idle : Daemon ℕ
idle = record { modules = []; world = 0 }

event_run-answered_example :
    event_run stopped (known player) idle
    ≡ answered player
        (modules_run player ∷ env_status_currentsong false ∷ hooker_run_hook player ∷ [])
        idle
unfolding has_song
event_run-answered_example = event_run-answered stopped player idle
