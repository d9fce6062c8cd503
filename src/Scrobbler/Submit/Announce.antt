-- ===== src/Scrobbler/Submit/Announce.antt =====
-- "Now playing" announcements that scrobbler-submit.c loses or fails on.
use mpdcron.Prelude.{◌≡◌, [], Bytes, true, false, arith}
use mpdcron.Scrobbler.Record.{SongRecord, record_is_defined, record_zeroed}
use mpdcron.Scrobbler.Types.{Scrobbler, Env, ready, submitting, done, aborted}
use mpdcron.Scrobbler.Response.{submit_ok, parse_submit_response, first_line}
use mpdcron.Scrobbler.Submit.{scrobbler_schedule_now_playing_callback, scrobbler_submit_response}

-- Announcing a song without an artist or a title to a ready scrobbler with no submit timer and an
-- empty queue makes an assertion fail.
pub undefined_aborts :
    (env : Env) (song : SongRecord) (s : Scrobbler)
    → s.state ≡ ready
    → s.submit_source_id ≡ 0
    → s.queue ≡ []
    → record_is_defined song ≡ false
    → scrobbler_schedule_now_playing_callback env song s ≡ aborted
unfolding scrobbler_schedule_now_playing_callback
undefined_aborts env song s st idle empty undefined = ground arith

-- A song with an artist and a title, announced while another announcement is under way, with an
-- empty queue and no submit timer or pending songs, makes no request, and is forgotten without one
-- when the server accepts the other one.
pub lost_announcement :
    (env env' : Env) (song : SongRecord) (s : Scrobbler) (response : Bytes)
    → s.state ≡ submitting
    → s.submit_source_id ≡ 0
    → s.pending ≡ 0
    → s.queue ≡ []
    → record_is_defined song ≡ true
    → parse_submit_response (first_line response) ≡ submit_ok
    → let s' = record s { now_playing = song } in
      (scrobbler_schedule_now_playing_callback env song s ≡ done s' [])
      × (scrobbler_submit_response env' response s'
          ≡ done (record s { state = ready; interval = 1; now_playing = record_zeroed }) [])
unfolding scrobbler_schedule_now_playing_callback scrobbler_submit_response
lost_announcement env env' song s response st idle none_pending empty defined accepted =
    (ground arith, rw (st, accepted, scrobbler_submit_response) (ground arith))
