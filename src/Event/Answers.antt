-- ===== src/Event/Answers.antt =====
-- What each event asks of the player daemon, and what follows from its answers.
use mpdcron.Prelude.{
  ◌≡◌, refl, Bool, true, false, ◌&&◌, Option, none, some, List, [], ◌∷◌, arith, if◌then◌else◌,
}
use mpdcron.Modules.{Kind, database, stored_playlist, queue, player, mixer, output, options, update}
use mpdcron.Modules.Run.{module_run}
use mpdcron.Event.{
  PlayState, play, pause, stop, unknown, Mpd, Action, env_stats, env_status, env_status_currentsong,
  Daemon, Handled, known, event_run, has_song, modules_run, hooker_run_hook,
}

-- The answer to a player event is complete: a status, and a song if one is current.
abbrev pub is_complete : Option PlayState → Mpd → Bool
is_complete none mpd = false
is_complete (some play) mpd = mpd.next_response && mpd.current_song && mpd.finished
is_complete (some pause) mpd = mpd.next_response && mpd.current_song && mpd.finished
is_complete (some stop) mpd = mpd.finished
is_complete (some unknown) mpd = mpd.finished

-- What the event needs has been answered.
abbrev pub is_answered : Kind → Mpd → Bool
is_answered database mpd = mpd.stats
is_answered player mpd = mpd.commands_sent && is_complete mpd.player_status mpd
is_answered mixer mpd = mpd.status
is_answered options mpd = mpd.status
is_answered update mpd = mpd.status
is_answered stored_playlist mpd = true
is_answered queue mpd = true
is_answered output mpd = true

-- What an event does that was answered: its modules, its variables, its hook.
abbrev pub steps : Kind → Mpd → List Action
steps database mpd = modules_run database ∷ env_stats ∷ hooker_run_hook database ∷ []
steps player mpd = elim mpd.player_status [
  | none ↦ []
  | some state ↦
      modules_run player ∷ env_status_currentsong (has_song state) ∷ hooker_run_hook player ∷ []
]
steps mixer mpd = modules_run mixer ∷ env_status ∷ hooker_run_hook mixer ∷ []
steps options mpd = modules_run options ∷ env_status ∷ hooker_run_hook options ∷ []
steps update mpd = modules_run update ∷ env_status ∷ hooker_run_hook update ∷ []
steps stored_playlist mpd = modules_run stored_playlist ∷ hooker_run_hook stored_playlist ∷ []
steps queue mpd = modules_run queue ∷ hooker_run_hook queue ∷ []
steps output mpd = modules_run output ∷ hooker_run_hook output ∷ []

-- These steps, with what the loop over the modules returns and leaves.
abbrev pub answered : {W : Type 0} → Kind → List Action → Daemon W → Handled W
answered k actions d = record {
  failed = (module_run k d.modules d.world).failed;
  actions = actions;
  modules = (module_run k d.modules d.world).modules;
  world = (module_run k d.modules d.world).world;
}

-- Nothing is done, and -1 is returned.
abbrev pub unanswered : {W : Type 0} → Daemon W → Handled W
unanswered d = record { failed = true; actions = []; modules = d.modules; world = d.world }

-- An event that was answered in full runs its modules, then sets the variables of the song, the
-- status or what else was answered, then runs its hook; one that was not does nothing and returns
-- -1.
pub event_run-answered :
    {W : Type 0} (mpd : Mpd) (k : Kind) (d : Daemon W)
    → event_run mpd (known k) d
      ≡ (if is_answered k mpd then answered k (steps k mpd) d else unanswered d)
unfolding event_run has_song
event_run-answered mpd database d = ground arith
event_run-answered mpd player d = ground arith
event_run-answered mpd mixer d = ground arith
event_run-answered mpd options d = ground arith
event_run-answered mpd update d = ground arith
event_run-answered mpd stored_playlist d = refl
event_run-answered mpd queue d = refl
event_run-answered mpd output d = refl
