-- ===== src/Scrobbler/Player/Tests.antt =====
-- Player events on concrete songs.
use mpdcron.Prelude.{
  ◌≡◌, ◌≢◌, ℕ, ◌<◌, refl, codes, true, false, none, some, [], ◌∷◌, ◌++◌, All, arith,
}
use mpdcron.Modules.{success}
use mpdcron.Scrobbler.Record.{SongRecord, record_zeroed}
use mpdcron.Scrobbler.Types.{Scrobbler, Env, ready, aborted}
use mpdcron.Scrobbler.Submit.{scrobbler_schedule_now_playing_callback}
use mpdcron.Scrobbler.Player.{
  Song, announce, timer_start, Player, Reading, play, song_check_tags, song_changed, song_ended,
  event_player,
}
use mpdcron.Scrobbler.Player.Tags.{song_check_tags-radio, untitled_aborts}
use mpdcron.Scrobbler.Player.Events.{IsSubmittable, event_player-IsSubmittable, event_player-remote}

abbrev stream : Song
stream = record {
  id = 4;
  remote = true;
  artist = none;
  title = some (codes "A - B");
  album = none;
  track = none;
  mbid = none;
  duration = 0;
}

abbrev untitled : Song
untitled = record stream { artist = some (codes "A"); title = none }

abbrev reading : Reading
reading = record {
  now = codes "1700";
  timer_elapsed = 300;
  elapsed_time = 300;
  is_duplicated = true;
}

abbrev listening : Player
listening = record { last_id = some 4; was_paused = false; is_remote = true; prev = some stream }

no_dash : (c : ℕ) → 45 < c → c ≢ b'-'
no_dash c h = ground arith

song_check_tags-radio_example : song_check_tags stream ≡ some (some (codes "A"), some (codes " B"))
song_check_tags-radio_example =
    song_check_tags-radio stream (codes "A") (codes "B") refl (no_dash b'A' (omega arith), tt) refl

abbrev env : Env
env = record { escape = λ s. s; md5 = λ s. s; now = 1700; source_id = 7; version = codes "0.4" }

abbrev waiting : Scrobbler
waiting = record {
  config = record { name = []; url = []; username = []; password = []; journal = none };
  state = ready;
  interval = 1;
  handshake_source_id = 0;
  submit_source_id = 0;
  session = some (codes "S");
  nowplay_url = some (codes "n");
  submit_url = some (codes "s");
  now_playing = record_zeroed;
  queue = [];
  pending = 0;
}

untitled_aborts_example :
    (r : SongRecord) × (song_changed untitled ≡ timer_start ∷ announce r ∷ [])
    × (scrobbler_schedule_now_playing_callback env r waiting ≡ aborted)
untitled_aborts_example = untitled_aborts env untitled (codes "A") waiting refl refl refl refl refl

event_player-remote_example :
    event_player play (some stream) reading listening
    ≡ some (success, (listening, song_ended reading stream ++ song_changed stream))
event_player-remote_example =
    event_player-remote reading stream stream listening refl refl refl refl

event_player-IsSubmittable_example :
    All IsSubmittable (song_ended reading stream ++ song_changed stream)
event_player-IsSubmittable_example =
    event_player-IsSubmittable play (some stream) reading listening listening success
      (song_ended reading stream ++ song_changed stream)
      (event_player-remote reading stream stream listening refl refl refl refl)
