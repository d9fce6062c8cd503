-- ===== src/Scrobbler/Tests.antt =====
-- Runs of the scrobbler on concrete inputs, and the theorems about it at such inputs.
use Prim.Native.Nat.{min, ◌^◌}
use mpdcron.Prelude.{
  ◌*◌, ◌≡◌, ◌≢◌, refl, codes, bytes_eq, starts_with, none, some, [], ◌∷◌, ◌++◌, arith,
}
use mpdcron.Prelude.Int.{pos}
use mpdcron.Scrobbler.Record.{SongRecord, record_zeroed}
use mpdcron.Scrobbler.Types.{
  Config, Scrobbler, Env, nothing, handshake, ready, submitting, request, timeout,
  handshake_handler, submit_handler, handshake_timer, aborted, done,
}
use mpdcron.Scrobbler.Request.{handshake_url}
use mpdcron.Scrobbler.Request.Batch.{escaped, songs_body}
use mpdcron.Scrobbler.Response.{submit_ok, parse_submit_response, first_line, split_newline}
use mpdcron.Scrobbler.Submit.{
  max_interval, scrobbler_new, scrobbler_submit, scrobbler_submit_response,
  scrobbler_handshake_response, scrobbler_handshake_timer, scrobbler_schedule_now_playing_callback,
}
use mpdcron.Scrobbler.Submit.System.{
  handshake_timer_fires, song_finished, handle, arm, consume, unarmed, Armed, System, Reach, start,
  next, scrobbler_started,
}
use mpdcron.Scrobbler.Submit.Consistent.{IsConsistent, Ensures}
use mpdcron.Scrobbler.Submit.Liveness.{Drains, Reach-Drains}
use mpdcron.Scrobbler.Submit.Progress.{Reply}
use mpdcron.Scrobbler.Submit.Safety.{Reach-IsConsistent, Reach-ne-aborted}
use mpdcron.Scrobbler.Submit.Backoff.{failed_times, failed_times-interval}
use mpdcron.Scrobbler.Submit.Delivery.{scrobbler_submit-batch, handle-queue}
use mpdcron.Scrobbler.Submit.Session.{handshake_response-answer, answer}
use mpdcron.Scrobbler.Submit.Announce.{lost_announcement}

abbrev env : Env
env = record { escape = λ s. s; md5 = λ s. s; now = 1700; source_id = 7; version = codes "0.4" }

abbrev config : Config
config = record {
  name = codes "last.fm";
  url = codes "http://as";
  username = codes "u";
  password = codes "p";
  journal = none;
}

abbrev song : SongRecord
song = record record_zeroed {
  artist = some (codes "A");
  track = some (codes "T");
  length = pos 200;
  source = some (codes "P");
}

abbrev fresh : Scrobbler
fresh = record (scrobbler_new config) { queue = song ∷ [] }

-- A start with one song in the journal, and the handshake timer.
abbrev waiting : Scrobbler
waiting = record {
  config = config;
  state = nothing;
  interval = 1;
  handshake_source_id = 7;
  submit_source_id = 0;
  session = none;
  nowplay_url = none;
  submit_url = none;
  now_playing = record record_zeroed { source = some (codes "P") };
  queue = song ∷ [];
  pending = 0;
}

abbrev started : System
started = record { scrobbler = waiting; armed = record unarmed { handshake_timers = 1 } }

started-Reach : Reach config started
unfolding scrobbler_started arm
started-Reach = start env (song ∷ []) waiting (timeout 1 handshake_timer ∷ []) (omega arith) refl

abbrev shaking : Scrobbler
shaking = record waiting { state = handshake; handshake_source_id = 0 }

shaking-Reach :
    Reach config (record { scrobbler = shaking; armed = record unarmed { handshake_requests = 1 } })
unfolding handle scrobbler_handshake_timer arm consume
shaking-Reach =
    next env handshake_timer_fires waiting shaking (record unarmed { handshake_timers = 1 })
      (request (some (handshake_url env (record waiting { handshake_source_id = 0 }))) none
          handshake_handler
        ∷ [])
      started-Reach (omega arith) (omega arith) tt refl

Reach-IsConsistent_example : IsConsistent shaking (record unarmed { handshake_requests = 1 })
Reach-IsConsistent_example = Reach-IsConsistent shaking-Reach

abbrev good_reply : Reply
unfolding starts_with
good_reply = record {
  line = codes "OK";
  session = codes "S";
  nowplay_url = codes "n";
  submit_url = codes "s";
  rest = [];
  accepts = refl;
  line-IsLine = omega arith;
  session-IsLine = omega arith;
  nowplay_url-IsLine = omega arith;
  submit_url-IsLine = omega arith;
  has_nowplay_url = refl;
  has_submit_url = refl;
}

Reach-Drains_example : Drains (λ n. env) (λ n. good_reply) 0 7 started
Reach-Drains_example =
    Reach-Drains (λ n. env) (λ n. good_reply) (λ n. omega arith) started started-Reach

Reach-ne-aborted_example : handle env handshake_timer_fires waiting ≢ aborted
Reach-ne-aborted_example =
    Reach-ne-aborted env handshake_timer_fires started-Reach (omega arith) (omega arith) tt

failed_times-interval_example : (failed_times 9 shaking).interval ≡ min max_interval (60 * 2 ^ 8)
failed_times-interval_example = failed_times-interval 8 shaking refl

abbrev open_session : Scrobbler
open_session = record shaking {
  state = ready;
  session = some (codes "S");
  nowplay_url = some (codes "n");
  submit_url = some (codes "s");
}

scrobbler_submit-batch_example :
    scrobbler_submit env open_session
    ≡ done
        (record open_session { state = submitting; pending = 1 })
        (request
            (some (codes "s"))
            (some ((codes "&s=" ++ escaped env (some (codes "S"))) ++ songs_body env 0 (song ∷ [])))
            submit_handler
          ∷ [])
scrobbler_submit-batch_example = scrobbler_submit-batch env open_session refl refl refl

abbrev sending : Scrobbler
sending = record open_session { state = submitting; pending = 1; queue = song ∷ song ∷ [] }

abbrev one_request : Armed
one_request = record unarmed { submit_requests = 1 }

sending-IsConsistent : IsConsistent sending one_request
sending-IsConsistent = ground arith

accepts : parse_submit_response (first_line (codes "OK\n")) ≡ submit_ok
unfolding parse_submit_response first_line split_newline bytes_eq
accepts = refl

handle-queue_example :
    Ensures (λ s es. s.queue ≡ song ∷ song ∷ song ∷ []) (handle env (song_finished song) sending)
handle-queue_example =
    handle-queue env (song_finished song) sending one_request (omega arith) sending-IsConsistent tt
      tt

handshake_response-answer_example :
    scrobbler_handshake_response env
      (answer (codes "OK") (codes "S") (codes "n") (codes "s") [])
      shaking
    ≡ scrobbler_submit env open_session
unfolding starts_with
handshake_response-answer_example =
    handshake_response-answer env (codes "OK") (codes "S") (codes "n") (codes "s") [] shaking refl
      (omega arith) (omega arith) (omega arith) (omega arith)

abbrev idle : Scrobbler
idle = record open_session { queue = [] }

lost_announcement_example :
    (scrobbler_schedule_now_playing_callback env song (record idle { state = submitting })
      ≡ done (record idle { state = submitting; now_playing = song }) [])
    × (scrobbler_submit_response env
          (codes "OK\n")
          (record idle { state = submitting; now_playing = song })
        ≡ done (record idle { now_playing = record_zeroed }) [])
lost_announcement_example =
    lost_announcement env env song (record idle { state = submitting }) (codes "OK\n") refl refl
      refl refl refl accepts
