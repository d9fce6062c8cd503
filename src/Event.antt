-- ===== src/Event.antt =====
-- How the daemon answers an idle event of the player daemon: cron-event.c, built with HAVE_GMODULE.
pub mod Answers
mod Tests
use mpdcron.Prelude.{
  ℕ, Bool, true, false, ◌&&◌, not, Option, none, some, List, [], ◌∷◌, ◌++◌, if◌then◌else◌,
}
use mpdcron.Modules.{
  Kind, database, stored_playlist, queue, player, mixer, output, options, update, Module,
}
use mpdcron.Modules.Walk.{Walk}
use mpdcron.Modules.Run.{module_run}

-- enum mpd_state
pub data PlayState : Type 0 where
  unknown stop play pause : PlayState

-- What libmpdclient answers while one event is handled: whether the statistics and the status came,
-- and for the player event the steps of its command list.
pub record Mpd : Type 0 where
  pub stats : Bool
  pub status : Bool
  pub commands_sent : Bool
  pub player_status : Option PlayState
  pub next_response : Bool
  pub current_song : Bool
  pub finished : Bool

-- What an event makes the daemon do, in order. The flag of `env_status_currentsong` says whether
-- there is a song.
pub data Action : Type 0 where
  modules_run hooker_run_hook : Kind → Action
  env_stats env_status : Action
  env_status_currentsong : Bool → Action

-- `failed` is the return value -1.
pub record Handled (W : Type 0) : Type 0 where
  pub failed : Bool
  pub actions : List Action
  pub modules : List (Module W)
  pub world : W

-- The daemon's side of the modules: the global list, and the world they share.
pub record Daemon (W : Type 0) : Type 0 where
  pub modules : List (Module W)
  pub world : W

-- The numbers of enum mpd_idle that the switch of event_run names, and any other.
pub data Idle : Type 0 where
  known : Kind → Idle
  other : Idle

-- The song follows the status only while the player plays or pauses.
unfoldable pub has_song : PlayState → Bool
has_song play = true
has_song pause = true
has_song stop = false
has_song unknown = false

module _ {W : Type 0} where
  -- return -1, or 0, before anything is done.
  abbrev pub returns : Bool → Daemon W → Handled W
  returns failed d = record { failed = failed; actions = []; modules = d.modules; world = d.world }

  -- The modules' functions, the variables of the environment, then the hook.
  abbrev pub runs : Kind → List Action → Daemon W → Handled W
  runs k env d =
      let s = module_run k d.modules d.world in
      record {
        failed = s.failed;
        actions = modules_run k ∷ (env ++ (hooker_run_hook k ∷ []));
        modules = s.modules;
        world = s.world;
      }

  event_database : Mpd → Daemon W → Handled W
  event_database mpd d = if not mpd.stats then returns true d else runs database (env_stats ∷ []) d

  event_stored_playlist : Daemon W → Handled W
  event_stored_playlist d = runs stored_playlist [] d

  event_queue : Daemon W → Handled W
  event_queue d = runs queue [] d

  player_answered : PlayState → Mpd → Daemon W → Handled W
  unfolding has_song
  player_answered state mpd d =
      if has_song state && not (mpd.next_response && mpd.current_song)
      then returns true d
      else if not mpd.finished
      then returns true d
      else runs player (env_status_currentsong (has_song state) ∷ []) d

  event_player : Mpd → Daemon W → Handled W
  unfolding player_answered
  event_player mpd d = if not mpd.commands_sent then returns true d else elim mpd.player_status [
    | none ↦ returns true d
    | some state ↦ player_answered state mpd d
  ]

  event_mixer : Mpd → Daemon W → Handled W
  event_mixer mpd d = if not mpd.status then returns true d else runs mixer (env_status ∷ []) d

  event_output : Daemon W → Handled W
  event_output d = runs output [] d

  event_options : Mpd → Daemon W → Handled W
  event_options mpd d = if not mpd.status then returns true d else runs options (env_status ∷ []) d

  event_update : Mpd → Daemon W → Handled W
  event_update mpd d = if not mpd.status then returns true d else runs update (env_status ∷ []) d

  unfoldable pub event_run : Mpd → Idle → Daemon W → Handled W
  unfolding event_database event_stored_playlist event_queue event_player event_mixer event_output
      event_options event_update
  event_run mpd (known database) d = event_database mpd d
  event_run mpd (known stored_playlist) d = event_stored_playlist d
  event_run mpd (known player) d = event_player mpd d
  event_run mpd (known queue) d = event_queue d
  event_run mpd (known mixer) d = event_mixer mpd d
  event_run mpd (known output) d = event_output d
  event_run mpd (known options) d = event_options mpd d
  event_run mpd (known update) d = event_update mpd d
  event_run mpd other d = returns false d
