-- ===== src/Scrobbler/Player/Tags.antt =====
-- What song_check_tags makes of a song's tags, and what becomes of it.
use mpdcron.Prelude.{
  ℕ, ◌<◌, ◌≡◌, ◌≢◌, refl, ap, sym, ◌∙◌, Bytes, none, some, [], ◌∷◌, ◌++◌, All, arith,
}
use mathlib.Core.List.{append_assoc}
use mpdcron.Prelude.Int.{pos}
use mpdcron.Scrobbler.Record.{SongRecord}
use mpdcron.Scrobbler.Types.{Scrobbler, Env, ready, aborted}
use mpdcron.Scrobbler.Submit.{scrobbler_schedule_now_playing_callback}
use mpdcron.Scrobbler.Submit.Announce.{undefined_aborts}
use mpdcron.Scrobbler.Player.{
  Song, announce, timer_start, as_now_playing, radio_tags, split_dash, drop_space, radio_title,
  song_check_tags, song_changed,
}

split_dash-append :
    (before after : Bytes)
    → All (λ c. c ≢ b'-') before
    → split_dash (before ++ (b'-' ∷ after)) ≡ some (before, after)
unfolding split_dash
split_dash-append [] after h = refl
split_dash-append (c ∷ before) after h = ground (arith, split_dash-append before after h.1)

drop_space-append : (before : Bytes) → drop_space (before ++ (32 ∷ [])) ≡ before
unfolding drop_space
drop_space-append [] = refl
drop_space-append (c ∷ []) = refl
drop_space-append (c ∷ d ∷ before) = ap (λ (s : Bytes). c ∷ s) (drop_space-append (d ∷ before))

radio_tags-space :
    (artist title : Bytes)
    → radio_tags (artist ++ (32 ∷ []), 32 ∷ title) ≡ some (some artist, some (32 ∷ title))
unfolding radio_tags radio_title drop_space
radio_tags-space [] title = refl
radio_tags-space (c ∷ artist) title =
    ap (λ (s : Bytes). some (some s, some (32 ∷ title))) (drop_space-append (c ∷ artist))

no_dash : (c : ℕ) → c < 45 → c ≢ b'-'
no_dash c h = ground arith

All-space : (s : Bytes) → All (λ c. c ≢ b'-') s → All (λ c. c ≢ b'-') (s ++ (32 ∷ []))
All-space [] h = (no_dash 32 (omega arith), tt)
All-space (c ∷ s) h = (h.0, All-space s h.1)

-- A song without an artist whose title is an artist without a dash, then a dash between two spaces,
-- then a title, is given that artist, and that title with a space in front of it.
pub song_check_tags-radio :
    (song : Song) (artist title : Bytes)
    → song.artist ≡ none
    → All (λ c. c ≢ b'-') artist
    → song.title ≡ some (artist ++ (32 ∷ b'-' ∷ 32 ∷ title))
    → song_check_tags song ≡ some (some artist, some (32 ∷ title))
unfolding song_check_tags
song_check_tags-radio song artist title no_artist clean given =
    let whole : song.title ≡ some ((artist ++ (32 ∷ [])) ++ (b'-' ∷ 32 ∷ title)) =
      given ∙ ap some (sym (append_assoc artist (32 ∷ []) (b'-' ∷ 32 ∷ title))) in
    rw (
      song_check_tags,
      no_artist,
      whole,
      split_dash-append (artist ++ (32 ∷ [])) (32 ∷ title) (All-space artist clean),
      radio_tags-space artist title,
    )

-- A new song with an artist and no title is announced, and the announcement makes an assertion fail
-- in a ready scrobbler with no submit timer and an empty queue.
pub untitled_aborts :
    (env : Env) (song : Song) (artist : Bytes) (s : Scrobbler)
    → song.artist ≡ some artist
    → song.title ≡ none
    → s.state ≡ ready
    → s.submit_source_id ≡ 0
    → s.queue ≡ []
    → (r : SongRecord) × (song_changed song ≡ timer_start ∷ announce r ∷ [])
      × (scrobbler_schedule_now_playing_callback env r s ≡ aborted)
unfolding song_check_tags song_changed as_now_playing
untitled_aborts env song artist s given untitled st idle empty =
    let r : SongRecord = record {
      artist = some artist;
      track = none;
      album = song.album;
      number = song.track;
      mbid = song.mbid;
      time = none;
      length = pos song.duration;
      source = none;
    } in
    (
      r,
      rw (song_changed, song_check_tags, given, untitled),
      undefined_aborts env r s st idle empty refl,
    )
