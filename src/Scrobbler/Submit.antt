-- ===== src/Scrobbler/Submit.antt =====
-- The state machine of one scrobbler: scrobbler-submit.c.
-- A handler that asserts does so in tail position, so an outcome is a state with the calls made, or
-- an abort. http_client_request may call the error handler before it returns; it is the last thing
-- that a handler does, so that call is the next event.
pub mod System
pub mod Consistent
mod Handlers
pub mod Safety
pub mod Progress
pub mod Liveness
pub mod Backoff
pub mod Delivery
pub mod Session
pub mod Announce
use mpdcron.Prelude.{
  ℕ, zero, suc, ◌*◌, ◌%◌, Bytes, ◌&&◌, ◌||◌, not, Option, none, some, List, [], ◌∷◌, ◌++◌, codes,
  is_empty, ltb, ◌==◌, if◌then◌else◌,
}
use mpdcron.Scrobbler.Record.{SongRecord, record_clear, record_zeroed, record_is_defined}
use mpdcron.Scrobbler.Types.{
  Config, nothing, handshake, ready, submitting, is_nothing, is_handshake, is_ready, is_submitting,
  Scrobbler, Env, handshake_handler, submit_handler, handshake_timer, submit_timer, request,
  timeout, Outcome, aborted, done, assert,
}
use mpdcron.Scrobbler.Response.{
  submit_ok, submit_failed, submit_handshake, Submitting, parse_submit_response,
  parse_handshake_response, next_line, first_line,
}
use mpdcron.Scrobbler.Request.{
  max_submit_count, handshake_url, now_playing_body, add_songs, add_var,
}

abbrev pub max_interval : ℕ
max_interval = 7200

unfoldable pub scrobbler_new : Config → Scrobbler
scrobbler_new config = record {
  config = config;
  state = nothing;
  interval = 1;
  handshake_source_id = 0;
  submit_source_id = 0;
  session = none;
  nowplay_url = none;
  submit_url = none;
  now_playing = record_clear;
  queue = [];
  pending = 0;
}

abbrev pub capped : ℕ → ℕ
capped n = if ltb max_interval n then max_interval else n

unfoldable pub scrobbler_increase_interval : Scrobbler → Scrobbler
scrobbler_increase_interval s = record s {
  interval = capped (if ltb s.interval 60 then 60 else (s.interval * 2) % 4294967296);
}

unfoldable pub scrobbler_schedule_handshake : Env → Scrobbler → Outcome
scrobbler_schedule_handshake env s = assert (is_nothing s.state) (
    assert (s.handshake_source_id == 0) (
      done (record s { handshake_source_id = env.source_id })
        (timeout s.interval handshake_timer ∷ [])))

unfoldable pub scrobbler_schedule_submit : Env → Scrobbler → Outcome
scrobbler_schedule_submit env s = assert (s.submit_source_id == 0) (
    assert (not (is_empty s.queue) || record_is_defined s.now_playing)
      (done (record s { submit_source_id = env.source_id }) (timeout s.interval submit_timer ∷ [])))

unfoldable pub scrobbler_send_now_playing : Env → SongRecord → Scrobbler → Outcome
scrobbler_send_now_playing env song s = assert (is_ready s.state) (
    assert (s.submit_source_id == 0) (
      done (record s { state = submitting })
        (request s.nowplay_url (some (now_playing_body env s song)) submit_handler ∷ [])))

submit_songs : Env → Scrobbler → Outcome
submit_songs env s =
    let (body, count) =
      add_songs env max_submit_count 0 (add_var env [] (codes "s") s.session) s.queue in
    done (record s { state = submitting; pending = count })
      (request s.submit_url (some body) submit_handler ∷ [])

unfoldable pub scrobbler_submit : Env → Scrobbler → Outcome
unfolding submit_songs scrobbler_send_now_playing
scrobbler_submit env s = assert (is_ready s.state) (
    assert (s.submit_source_id == 0) (
      if is_empty s.queue
      then (if record_is_defined s.now_playing
          then scrobbler_send_now_playing env s.now_playing s
          else done s [])
      else submit_songs env s))

-- The handshake timer and scrobbler_handshake
unfoldable pub scrobbler_handshake : Env → Scrobbler → Outcome
scrobbler_handshake env s =
    done (record s { state = handshake })
      (request (some (handshake_url env s)) none handshake_handler ∷ [])

unfoldable pub scrobbler_handshake_timer : Env → Scrobbler → Outcome
unfolding scrobbler_handshake
scrobbler_handshake_timer env s =
    assert (is_nothing s.state) (scrobbler_handshake env (record s { handshake_source_id = 0 }))

retry_handshake : Env → Scrobbler → Outcome
unfolding scrobbler_schedule_handshake scrobbler_increase_interval
retry_handshake env s = scrobbler_schedule_handshake env (scrobbler_increase_interval s)

retry_submit : Env → Scrobbler → Outcome
unfolding scrobbler_schedule_submit scrobbler_increase_interval
retry_submit env s = scrobbler_schedule_submit env (scrobbler_increase_interval s)

-- What follows once the three lines behind "OK" are read.
handshake_answered : Env → Bytes → Bytes → Bytes → Scrobbler → Outcome
unfolding retry_handshake scrobbler_submit
handshake_answered env session nowplay_url submit_url s =
    if is_empty nowplay_url || is_empty submit_url
    then retry_handshake env (record s { session = none; nowplay_url = none; submit_url = none })
    else scrobbler_submit env (record s {
      session = some session;
      nowplay_url = some nowplay_url;
      submit_url = some submit_url;
      state = ready;
      interval = 1;
    })

unfoldable pub scrobbler_handshake_response : Env → Bytes → Scrobbler → Outcome
unfolding retry_handshake handshake_answered
scrobbler_handshake_response env response s = assert (is_handshake s.state) (
    let s = record s { state = nothing } in
    let (line, rest) = next_line response in
    let (session, rest) = next_line rest in
    let (nowplay_url, rest) = next_line rest in
    let (submit_url, rest) = next_line rest in
    if parse_handshake_response line
    then handshake_answered env session nowplay_url submit_url s
    else retry_handshake env s)

unfoldable pub scrobbler_handshake_error : Env → Scrobbler → Outcome
unfolding retry_handshake
scrobbler_handshake_error env s =
    assert (is_handshake s.state) (retry_handshake env (record s { state = nothing }))

-- scrobbler_queue_remove_oldest, whose assertion that the count is positive its caller has tested;
-- record_free on the head of an empty queue follows a null pointer.
unfoldable pub scrobbler_queue_remove_oldest : ℕ → List SongRecord → Option (List SongRecord)
scrobbler_queue_remove_oldest zero queue = some queue
scrobbler_queue_remove_oldest (suc count) [] = none
scrobbler_queue_remove_oldest (suc count) (song ∷ queue) = scrobbler_queue_remove_oldest count queue

-- The branch AS_SUBMIT_OK of scrobbler_submit_response.
submit_accepted : Env → Scrobbler → Outcome
unfolding scrobbler_submit
submit_accepted env s =
    if ltb 0 s.pending
    then elim (scrobbler_queue_remove_oldest s.pending s.queue) [
      | none ↦ aborted
      | some queue ↦ scrobbler_submit env (record s { queue = queue; pending = 0 })
    ]
    else assert (record_is_defined s.now_playing)
        (scrobbler_submit env (record s { now_playing = record_zeroed }))

submit_answered : Env → Submitting → Scrobbler → Outcome
unfolding submit_accepted retry_submit scrobbler_schedule_handshake
submit_answered env submit_ok s = submit_accepted env (record s { interval = 1 })
submit_answered env submit_failed s = retry_submit env s
submit_answered env submit_handshake s =
    scrobbler_schedule_handshake env (record s { state = nothing })

unfoldable pub scrobbler_submit_response : Env → Bytes → Scrobbler → Outcome
unfolding submit_answered
scrobbler_submit_response env response s =
    assert (is_submitting s.state) (
      submit_answered env (parse_submit_response (first_line response))
        (record s { state = ready }))

unfoldable pub scrobbler_submit_error : Env → Scrobbler → Outcome
unfolding retry_submit
scrobbler_submit_error env s =
    assert (is_submitting s.state) (retry_submit env (record s { state = ready }))

unfoldable pub scrobbler_submit_timer : Env → Scrobbler → Outcome
unfolding scrobbler_submit
scrobbler_submit_timer env s =
    assert (is_ready s.state) (scrobbler_submit env (record s { submit_source_id = 0 }))

-- Called when a song was added or announced: set the timer if nothing is under way.
schedule_if_idle : Env → Scrobbler → Outcome
unfolding scrobbler_schedule_submit
schedule_if_idle env s =
    if is_ready s.state && s.submit_source_id == 0
    then scrobbler_schedule_submit env s
    else done s []

unfoldable pub scrobbler_schedule_now_playing_callback : Env → SongRecord → Scrobbler → Outcome
unfolding schedule_if_idle
scrobbler_schedule_now_playing_callback env song s =
    schedule_if_idle env (record s { now_playing = song })

unfoldable pub scrobbler_push_callback : Env → SongRecord → Scrobbler → Outcome
unfolding schedule_if_idle
scrobbler_push_callback env song s =
    schedule_if_idle env (record s { queue = s.queue ++ (song ∷ []) })
