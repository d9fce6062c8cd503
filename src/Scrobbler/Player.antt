-- ===== src/Scrobbler/Player.antt =====
-- Which songs the scrobbler announces and submits: scrobbler-module.c, song_check_tags of utils.h, and
-- the records that as_now_playing and as_songchange of scrobbler-submit.c make.
pub mod Tags
pub mod Events
mod Tests
use mpdcron.Prelude.{
  ℕ, ◌-◌, ◌/◌, Bytes, Bool, true, false, ◌&&◌, ◌||◌, not, Option, none, some, is_some, List, [],
  ◌∷◌, ◌++◌, ltb, leb, ◌==◌, is_empty, if◌then◌else◌,
}
use mpdcron.Prelude.Int.{pos}
use mpdcron.Modules.{EventReturn, success, unload}
use mpdcron.Scrobbler.Record.{SongRecord, source_user, source_radio}

-- What libmpdclient tells of a song; `remote` is whether its URI contains "://".
pub record Song : Type 0 where
  pub id : ℕ
  pub remote : Bool
  pub artist : Option Bytes
  pub title : Option Bytes
  pub album : Option Bytes
  pub track : Option Bytes
  pub mbid : Option Bytes
  pub duration : ℕ

-- strchr(title, '-') and the character before it: what stands before the dash, less one space at
-- its end, and what stands behind the dash.
unfoldable pub split_dash : Bytes → Option (Bytes × Bytes)
split_dash [] = none
split_dash (c ∷ s) =
    let rest = split_dash s in
    if c == b'-'
    then some ([], s)
    else elim rest [ none ↦ none | some (before, after) ↦ some (c ∷ before, after) ]

-- One space at the end is overwritten by the zero that ends the artist.
unfoldable pub drop_space : Bytes → Bytes
drop_space [] = []
drop_space (c ∷ s) = let rest = drop_space s in if is_empty s && c == 32 then [] else c ∷ rest

-- The pointer is moved onto the space behind the dash, if there is one, and stays on the dash otherwise.
unfoldable pub radio_title : Bytes → Bytes
radio_title [] = b'-' ∷ []
radio_title (c ∷ after) = if c == 32 then c ∷ after else b'-' ∷ c ∷ after

unfoldable pub radio_tags : Bytes × Bytes → Option (Option Bytes × Option Bytes)
unfolding drop_space radio_title
radio_tags ([], after) = none
radio_tags (c ∷ before, after) = some (some (drop_space (c ∷ before)), some (radio_title after))

-- song_check_tags: `none` is the return value false, otherwise the artist and the title.
unfoldable pub song_check_tags : Song → Option (Option Bytes × Option Bytes)
unfolding split_dash radio_tags
song_check_tags song = elim song.artist [
  | some artist ↦ some (some artist, song.title)
  | none ↦ elim song.title [
    | none ↦ none
    | some title ↦ elim (split_dash title) [ none ↦ none | some found ↦ radio_tags found ]
  ]
]

-- played_long_enough
unfoldable pub played_long_enough : ℕ → ℕ → Bool
played_long_enough elapsed length = ltb 240 elapsed || (leb 30 length && ltb (length / 2) elapsed)

-- song_repeated
unfoldable pub song_repeated : Song → ℕ → ℕ → Bool
unfolding played_long_enough
song_repeated song elapsed prev_elapsed =
    ltb elapsed 60
    && ltb elapsed prev_elapsed
    && played_long_enough (prev_elapsed - elapsed) song.duration

-- What a player event makes: a record for every scrobbler's now_playing, a record for every
-- scrobbler's queue, and the calls on the GTimer.
pub data Call : Type 0 where
  announce submit : SongRecord → Call
  timer_start timer_continue timer_stop : Call

-- as_now_playing; the source of its record is not set, and nothing reads it.
unfoldable pub as_now_playing : Option Bytes → Option Bytes → Song → Call
as_now_playing artist track song = announce record {
  artist = artist;
  track = track;
  album = song.album;
  number = song.track;
  mbid = song.mbid;
  time = none;
  length = pos song.duration;
  source = none;
}

is_given : Option Bytes → Bool
is_given none = false
is_given (some text) = not (is_empty text)

-- as_songchange at the time stamp `now`: nothing without an artist and a title.
unfoldable pub as_songchange : Bytes → Option Bytes → Option Bytes → ℕ → Song → List Call
unfolding is_given
as_songchange now artist track length song =
    if is_given artist && is_given track
    then submit record {
      artist = artist;
      track = track;
      album = song.album;
      number = song.track;
      mbid = song.mbid;
      time = some now;
      length = pos length;
      source = some (if song.remote then source_radio else source_user);
    }
      ∷ []
    else []

-- The statics of the file; `last_id` is `none` while it is -1.
pub record Player : Type 0 where
  pub last_id : Option ℕ
  pub was_paused : Bool
  pub is_remote : Bool
  pub prev : Option Song

-- What an event reads: the clock as a time stamp, the seconds that the GTimer shows, the seconds that
-- MPD says the song was played, and whether mpd_song_dup has the memory for a copy.
pub record Reading : Type 0 where
  pub now : Bytes
  pub timer_elapsed : ℕ
  pub elapsed_time : ℕ
  pub is_duplicated : Bool

-- song_changed, which is all that song_started does, but for is_remote.
unfoldable pub song_changed : Song → List Call
unfolding song_check_tags as_now_playing
song_changed song = elim (song_check_tags song) [
  | none ↦ timer_start ∷ []
  | some (artist, title) ↦ timer_start ∷ as_now_playing artist title song ∷ []
]

unfoldable pub song_ended : Reading → Song → List Call
unfolding song_check_tags played_long_enough as_songchange
song_ended t song = elim (song_check_tags song) [
  | none ↦ []
  | some (artist, title) ↦
      if played_long_enough t.timer_elapsed song.duration
      then as_songchange t.now artist title
          (if ltb 0 song.duration then song.duration else t.timer_elapsed) song
      else []
]

-- song_playing
unfoldable pub song_playing : Reading → Song → List Call
unfolding song_repeated song_ended song_changed
song_playing t song =
    if song_repeated song t.elapsed_time t.timer_elapsed
    then song_ended t song ++ song_changed song
    else []

pub data PlayerState : Type 0 where
  play pause stopped : PlayerState

abbrev pub is_play : PlayerState → Bool
is_play play = true
is_play _ = false

abbrev has_id : Option ℕ → ℕ → Bool
has_id none id = false
has_id (some last) id = last == id

-- The titles of two songs are compared as pointers into two objects, so they are the same only when
-- both are null.
unfoldable pub titles_differ : Song → Song → Bool
titles_differ song prev = is_some song.title || is_some prev.title

-- The test for submitting the previous song.
unfoldable pub is_over : Player → Song → Option Song → Bool
unfolding titles_differ
is_over p prev none = true
is_over p prev (some song) = not (prev.id == song.id) || (p.is_remote && titles_differ song prev)

-- The test for a new song.
unfoldable pub is_new : Player → Song → Bool
unfolding titles_differ
is_new p song =
    not (has_id p.last_id song.id)
    || (p.is_remote && elim p.prev [ none ↦ false | some prev ↦ titles_differ song prev ])

unfoldable pub previous_ended : Reading → Option Song → Player → List Call
unfolding is_over song_ended
previous_ended t song p = elim p.prev [
  | none ↦ []
  | some prev ↦ if is_over p prev song then song_ended t prev else []
]

-- The song that plays is new, or it goes on.
unfoldable pub song_plays : Reading → Option Song → Player → Player × List Call
unfolding is_new song_repeated song_changed song_playing
song_plays t none p = (p, [])
song_plays t (some song) p =
    if is_new p song
    then (record p { last_id = some song.id; is_remote = song.remote }, song_changed song)
    else (
      record p {
        is_remote =
            if song_repeated song t.elapsed_time t.timer_elapsed then song.remote else p.is_remote;
      },
      song_playing t song,
    )

-- The timer goes on if the song that was paused is played again.
unfoldable pub continued : Option Song → Player → List Call
continued none p = []
continued (some song) p =
    if p.was_paused && has_id p.last_id song.id then timer_continue ∷ [] else []

-- event_player behind its first test: what is not a pause.
unfoldable pub not_paused : Reading → Option Song → Player → Player × List Call
unfolding continued previous_ended song_plays
not_paused t song p =
    let q = record p { was_paused = false } in
    let (p', calls) = song_plays t song q in
    (p', continued song p ++ (previous_ended t song q ++ calls))

-- The end of event_player: the song becomes the previous one, and without memory for the copy the
-- module asks to be unloaded.
unfoldable pub kept :
    Reading → Option Song → Player × List Call → EventReturn × (Player × List Call)
kept t none (p, calls) = (success, (record p { prev = none }, calls))
kept t (some song) (p, calls) = (
  if t.is_duplicated then success else unload,
  (record p { prev = if t.is_duplicated then some song else none }, calls),
)

-- event_player; `none` is the failed assertion.
unfoldable pub event_player :
    PlayerState → Option Song → Reading → Player → Option (EventReturn × (Player × List Call))
unfolding not_paused kept
event_player pause song t p =
    some (success, (record p { was_paused = true }, if p.was_paused then [] else timer_stop ∷ []))
event_player stopped song t p =
    some (kept t song (not_paused t song (record p { last_id = none; was_paused = false })))
event_player play none t p = none
event_player play (some song) t p = some (kept t (some song) (not_paused t (some song) p))
