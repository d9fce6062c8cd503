-- ===== src/Scrobbler/Submit/Handlers.antt =====
-- Every handler of scrobbler-submit.c keeps the scrobbler consistent and fails no assertion.
use Prim.Native.Nat.{min}
use mpdcron.Prelude.{
  codes, ℕ, zero, suc, ◌+◌, ◌≤◌, ◌<◌, ◌≡◌, refl, subst, sym, ◌⊎◌, inl, inr, Bool-cases, lt→ltb,
  true, false, ◌||◌, Bytes, some, List, [], ◌∷◌, ◌++◌, ltb, arith, length, drop, is_empty,
  length-append, is_empty-append_last,
}
use mpdcron.Scrobbler.Record.{SongRecord, record_is_defined, record_zeroed}
use mpdcron.Scrobbler.Types.{
  nothing, ready, is_handshake, is_ready, is_submitting, Scrobbler, Env, assert,
}
use mpdcron.Scrobbler.Response.{
  Submitting, submit_ok, submit_failed, submit_handshake, parse_submit_response,
  parse_handshake_response, first_line, next_line,
}
use mpdcron.Scrobbler.Request.{add_songs, add_song, add_var}
use mpdcron.Scrobbler.Submit.{
  max_interval, scrobbler_increase_interval, scrobbler_schedule_handshake, scrobbler_submit,
  scrobbler_handshake_timer, scrobbler_handshake_response, scrobbler_handshake_error,
  scrobbler_submit_response, scrobbler_submit_error, scrobbler_submit_timer,
  scrobbler_schedule_now_playing_callback, scrobbler_push_callback, retry_handshake, retry_submit,
  handshake_answered, submit_accepted, submit_answered, schedule_if_idle,
  scrobbler_queue_remove_oldest,
}
use mpdcron.Scrobbler.Submit.System.{
  Event, handshake_timer_fires, handshake_fails, handshake_replies, submit_timer_fires,
  submit_fails, submit_replies, song_announced, song_finished, Armed, arm, consume, IsPossible,
  IsAnnounceable, handle,
}
use mpdcron.Scrobbler.Submit.Consistent.{HasSession, HasWork, IsConsistent, Good}

-- The loop stops after the songs, or when there is no more room.
pub add_songs-count :
    (env : Env) (room count : ℕ) (body : Bytes) (songs : List SongRecord)
    → (add_songs env room count body songs).1 ≡ count + min room (length songs)
unfolding add_songs
add_songs-count env zero count body songs = omega arith
add_songs-count env (suc room) count body [] = omega arith
add_songs-count env (suc room) count body (song ∷ songs) =
    omega (arith, add_songs-count env room (count + 1) (add_song env body count song) songs)

abbrev ReadyToSubmit : Scrobbler → Armed → Type 0
ReadyToSubmit s a =
    (s.state ≡ ready)
    × (s.submit_source_id ≡ 0)
    × (s.handshake_source_id ≡ 0)
    × (a.handshake_timers ≡ 0)
    × (a.submit_timers ≡ 0)
    × (a.handshake_requests ≡ 0)
    × (a.submit_requests ≡ 0)
    × HasSession ready s
    × (s.pending ≤ length s.queue)
    × (s.pending ≤ 10)
    × (0 < s.interval)
    × (s.interval ≤ max_interval)

scrobbler_submit-Good :
    (env : Env) (s : Scrobbler) (a : Armed) → ReadyToSubmit s a → Good a (scrobbler_submit env s)
unfolding scrobbler_submit arm
scrobbler_submit-Good env s a h =
    ground (arith, add_songs-count env 10 0 (add_var env [] (codes "s") s.session) s.queue)

increase_bounds :
    (s : Scrobbler)
    → 0 < s.interval
    → s.interval ≤ max_interval
    → (60 ≤ (scrobbler_increase_interval s).interval)
      × ((scrobbler_increase_interval s).interval ≤ max_interval)
unfolding scrobbler_increase_interval
increase_bounds s p q = ground arith

pub remove_oldest-drop :
    (n : ℕ) (q : List SongRecord)
    → n ≤ length q
    → (r : List SongRecord) × (scrobbler_queue_remove_oldest n q ≡ some r) × (r ≡ drop n q)
unfolding scrobbler_queue_remove_oldest
remove_oldest-drop zero q h = (q, refl, refl)
remove_oldest-drop (suc n) [] h = absurd (omega arith)
remove_oldest-drop (suc n) (x ∷ q) h = remove_oldest-drop n q (omega arith)

-- Back in the phase `nothing`, with no timer.
abbrev Idle : Scrobbler → Armed → Type 0
Idle s a =
    (s.state ≡ nothing)
    × (s.submit_source_id ≡ 0)
    × (s.handshake_source_id ≡ 0)
    × (a.handshake_timers ≡ 0)
    × (a.submit_timers ≡ 0)
    × (a.handshake_requests ≡ 0)
    × (a.submit_requests ≡ 0)
    × (s.pending ≤ length s.queue)
    × (s.pending ≤ 10)
    × (0 < s.interval)
    × (s.interval ≤ max_interval)

module _ (env : Env) (fresh : 0 < env.source_id) where
  schedule_handshake-Good :
      (s : Scrobbler) (a : Armed) → Idle s a → Good a (scrobbler_schedule_handshake env s)
  unfolding scrobbler_schedule_handshake arm
  schedule_handshake-Good s a h = ground arith

  retry_handshake-Good : (s : Scrobbler) (a : Armed) → Idle s a → Good a (retry_handshake env s)
  unfolding retry_handshake arm
  retry_handshake-Good s a h = ground arith

  retry_submit-Good :
      (s : Scrobbler) (a : Armed) → ReadyToSubmit s a → HasWork s → Good a (retry_submit env s)
  unfolding retry_submit arm
  retry_submit-Good s a h w = ground arith

  handshake_answered-Good :
      (session nowplay submit : Bytes) (s : Scrobbler) (a : Armed)
      → Idle s a
      → Good a (handshake_answered env session nowplay submit s)
  unfolding handshake_answered
  handshake_answered-Good session nowplay submit s a h =
      elim (Bool-cases (is_empty nowplay || is_empty submit)) [
        | inl bad ↦ rw (bad, handshake_answered) (retry_handshake-Good _ a h)
        | inr fine ↦
            rw (fine, handshake_answered)
              (scrobbler_submit-Good env
                (record s {
                  state = ready;
                  interval = 1;
                  session = some session;
                  nowplay_url = some nowplay;
                  submit_url = some submit;
                })
                a (ground arith))
      ]

  submit_accepted-Good :
      (s : Scrobbler) (a : Armed)
      → ReadyToSubmit s a
      → (0 < s.pending) ⊎ ((s.pending ≡ 0) × (record_is_defined s.now_playing ≡ true))
      → Good a (submit_accepted env s)
  unfolding submit_accepted
  submit_accepted-Good s a h (inl some_pending) =
      let (q, removed, dropped) = remove_oldest-drop s.pending s.queue (h.8) in
      rw (lt→ltb 0 s.pending some_pending, removed, submit_accepted)
        (scrobbler_submit-Good env (record s { queue = q; pending = 0 }) a (ground arith))
  submit_accepted-Good s a h (inr (none_pending, defined)) =
      let nothing_pending : ltb 0 s.pending ≡ false = ground arith in
      rw (nothing_pending, defined, submit_accepted)
        (scrobbler_submit-Good env (record s { now_playing = record_zeroed }) a (ground arith))

  submit_answered-Good :
      (r : Submitting) (s : Scrobbler) (a : Armed)
      → ReadyToSubmit s a
      → (0 < s.pending) ⊎ ((s.pending ≡ 0) × (record_is_defined s.now_playing ≡ true))
      → Good a (submit_answered env r s)
  unfolding submit_answered
  submit_answered-Good submit_ok s a h w =
      submit_accepted-Good (record s { interval = 1 }) a (ground arith) w
  submit_answered-Good submit_failed s a h w = retry_submit-Good s a h (ground arith)
  submit_answered-Good submit_handshake s a h w =
      schedule_handshake-Good (record s { state = nothing }) a (ground arith)

  -- A song was added or announced, so that there is work.
  schedule_if_idle-Good :
      (song : SongRecord) (songs : List SongRecord) (s : Scrobbler) (a : Armed)
      → IsConsistent s a
      → length s.queue ≤ length songs
      → (record_is_defined s.now_playing ≡ true → record_is_defined song ≡ true)
      → HasWork (record s { now_playing = song; queue = songs })
      → Good a (schedule_if_idle env (record s { now_playing = song; queue = songs }))
  unfolding schedule_if_idle arm
  schedule_if_idle-Good song songs s a h longer defined w = ground arith

  handshake_timer-Good :
      (s : Scrobbler) (a : Armed)
      → IsConsistent s a
      → 0 < a.handshake_timers
      → Good (consume handshake_timer_fires a) (scrobbler_handshake_timer env s)
  unfolding scrobbler_handshake_timer arm consume
  handshake_timer-Good s a h p = ground arith

  handshake_error-Good :
      (s : Scrobbler) (a : Armed)
      → IsConsistent s a
      → 0 < a.handshake_requests
      → Good (consume handshake_fails a) (scrobbler_handshake_error env s)
  unfolding scrobbler_handshake_error consume
  handshake_error-Good s a h p =
      let waiting : is_handshake s.state ≡ true = ground arith in
      rw (waiting, scrobbler_handshake_error)
        (retry_handshake-Good (record s { state = nothing }) (consume handshake_fails a)
          (ground arith))

  submit_timer-Good :
      (s : Scrobbler) (a : Armed)
      → IsConsistent s a
      → 0 < a.submit_timers
      → Good (consume submit_timer_fires a) (scrobbler_submit_timer env s)
  unfolding scrobbler_submit_timer consume
  submit_timer-Good s a h p =
      let waiting : is_ready s.state ≡ true = ground arith in
      subst
        (λ b.
          Good (consume submit_timer_fires a)
            (assert b (scrobbler_submit env (record s { submit_source_id = 0 }))))
        (sym waiting)
        (scrobbler_submit-Good env (record s { submit_source_id = 0 })
          (consume submit_timer_fires a) (ground arith))

  submit_error-Good :
      (s : Scrobbler) (a : Armed)
      → IsConsistent s a
      → 0 < a.submit_requests
      → Good (consume submit_fails a) (scrobbler_submit_error env s)
  unfolding scrobbler_submit_error consume
  submit_error-Good s a h p =
      let waiting : is_submitting s.state ≡ true = ground arith in
      rw (waiting, scrobbler_submit_error)
        (retry_submit-Good (record s { state = ready }) (consume submit_fails a) (ground arith)
          (ground arith))

  handshake_response-Good :
      (response : Bytes) (s : Scrobbler) (a : Armed)
      → IsConsistent s a
      → 0 < a.handshake_requests
      → Good (consume (handshake_replies response) a) (scrobbler_handshake_response env response s)
  unfolding scrobbler_handshake_response consume
  handshake_response-Good response s a h p =
      let waiting : is_handshake s.state ≡ true = ground arith in
      let idle : Idle (record s { state = nothing }) (consume (handshake_replies response) a) =
        ground arith in
      elim (Bool-cases (parse_handshake_response (next_line response).0)) [
        | inl fine ↦
            rw (waiting, fine, scrobbler_handshake_response)
              (handshake_answered-Good _ _ _ (record s { state = nothing })
                (consume (handshake_replies response) a) idle)
        | inr bad ↦
            rw (waiting, bad, scrobbler_handshake_response)
              (retry_handshake-Good (record s { state = nothing })
                (consume (handshake_replies response) a) idle)
      ]

  submit_response-Good :
      (response : Bytes) (s : Scrobbler) (a : Armed)
      → IsConsistent s a
      → 0 < a.submit_requests
      → Good (consume (submit_replies response) a) (scrobbler_submit_response env response s)
  unfolding scrobbler_submit_response consume
  submit_response-Good response s a h p =
      let waiting : is_submitting s.state ≡ true = ground arith in
      rw (waiting, scrobbler_submit_response)
        (submit_answered-Good (parse_submit_response (first_line response))
          (record s { state = ready }) (consume (submit_replies response) a) (ground arith)
          (ground arith))

  now_playing-Good :
      (song : SongRecord) (s : Scrobbler) (a : Armed)
      → IsConsistent s a
      → record_is_defined song ≡ true
      → Good a (scrobbler_schedule_now_playing_callback env song s)
  unfolding scrobbler_schedule_now_playing_callback
  now_playing-Good song s a h n =
      schedule_if_idle-Good song s.queue s a h (omega arith) (λ _. n) (ground arith)

  push-Good :
      (song : SongRecord) (s : Scrobbler) (a : Armed)
      → IsConsistent s a
      → Good a (scrobbler_push_callback env song s)
  unfolding scrobbler_push_callback
  push-Good song s a h =
      schedule_if_idle-Good s.now_playing (s.queue ++ (song ∷ [])) s a h
        (omega (arith, length-append s.queue (song ∷ []))) (λ d. d)
        (rw (is_empty-append_last s.queue song))

  -- Every event that the main loop can deliver.
  pub handle-Good :
      (e : Event) (s : Scrobbler) (a : Armed)
      → IsConsistent s a
      → IsPossible e a
      → IsAnnounceable e
      → Good (consume e a) (handle env e s)
  unfolding handle
  handle-Good handshake_timer_fires s a h p n = handshake_timer-Good s a h p
  handle-Good handshake_fails s a h p n = handshake_error-Good s a h p
  handle-Good submit_timer_fires s a h p n = submit_timer-Good s a h p
  handle-Good submit_fails s a h p n = submit_error-Good s a h p
  handle-Good (handshake_replies response) s a h p n = handshake_response-Good response s a h p
  handle-Good (submit_replies response) s a h p n = submit_response-Good response s a h p
  handle-Good (song_announced song) s a h p n = unfold consume in now_playing-Good song s a h n
  handle-Good (song_finished song) s a h p n = unfold consume in push-Good song s a h
