-- ===== src/Scrobbler/Submit/Delivery.antt =====
-- What happens to the songs in the queue.
use Prim.Native.Nat.{min}
use mathlib.Core.Path.{ap₂}
use mpdcron.Prelude.{
  ℕ, zero, suc, ◌<◌, ◌≡◌, sym, subst, ap, ◌∙◌, Bytes, codes, Bool, true, false, Bool-cases,
  Option-cases, inl, inr, some, is_empty, List, [], ◌∷◌, ◌++◌, length, take, drop, arith, ltb,
}
use mpdcron.Scrobbler.Record.{SongRecord, record_zeroed, record_is_defined}
use mpdcron.Scrobbler.Types.{
  Scrobbler, Env, Outcome, ready, submitting, done, aborted, assert, request, submit_handler,
  is_submitting,
}
use mpdcron.Scrobbler.Request.{add_var}
use mpdcron.Scrobbler.Request.Batch.{escaped, songs_body, add_songs-take, add_var-session}
use mpdcron.Scrobbler.Response.{
  Submitting, submit_ok, submit_failed, submit_handshake, parse_submit_response, first_line,
}
use mpdcron.Scrobbler.Submit.{
  scrobbler_submit, scrobbler_submit_response, scrobbler_handshake_response, handshake_answered,
  submit_answered, submit_accepted, scrobbler_queue_remove_oldest, scrobbler_handshake_timer,
  scrobbler_handshake_error, scrobbler_submit_timer, scrobbler_submit_error,
  scrobbler_push_callback, scrobbler_schedule_now_playing_callback,
}
use mpdcron.Scrobbler.Submit.System.{
  Event, handshake_timer_fires, handshake_fails, handshake_replies, submit_timer_fires,
  submit_fails, submit_replies, song_announced, song_finished, handle, Armed, IsPossible,
  IsAnnounceable, consume,
}
use mpdcron.Scrobbler.Submit.Consistent.{IsConsistent, Ensures, Good}
use mpdcron.Scrobbler.Submit.Handlers.{handle-Good}

-- A ready scrobbler without a timer whose queue is not empty sends one request, whose body is the
-- escaped session and then, for each of the songs of the first ten places, its fields escaped under
-- their keys with the number of its place from 0, keeps the queue, and counts as pending the songs
-- that were sent.
pub scrobbler_submit-batch :
    (env : Env) (s : Scrobbler)
    → s.state ≡ ready
    → s.submit_source_id ≡ 0
    → is_empty s.queue ≡ false
    → scrobbler_submit env s
      ≡ done
          (record s { state = submitting; pending = min 10 (length s.queue) })
          (request s.submit_url
              (some ((codes "&s=" ++ escaped env s.session) ++ songs_body env 0 (take 10 s.queue)))
              submit_handler
            ∷ [])
unfolding scrobbler_submit
scrobbler_submit-batch env s st idle songs =
    rw (songs, st, idle, scrobbler_submit)
      (ap sent (
        add_songs-take env 10 0 (add_var env [] (codes "s") s.session) s.queue
        ∙ ap₂ (λ (b : Bytes) (n : ℕ). (b ++ songs_body env 0 (take 10 s.queue), n))
            (add_var-session env s.session) (omega arith)))
  where
    sent : Bytes × ℕ → Outcome
    sent p =
        done (record s { state = submitting; submit_source_id = 0; pending = p.1 })
          (request s.submit_url (some p.0) submit_handler ∷ [])

-- The queue that an answer to a submission leaves: an accepted batch is gone.
abbrev pub queue_answered : Submitting → ℕ → List SongRecord → List SongRecord
queue_answered submit_ok pending queue = drop pending queue
queue_answered submit_failed pending queue = queue
queue_answered submit_handshake pending queue = queue

-- The queue that an event leaves.
abbrev pub queue_after : Event → Scrobbler → List SongRecord
queue_after (song_finished song) s = s.queue ++ (song ∷ [])
queue_after (submit_replies response) s =
    queue_answered (parse_submit_response (first_line response)) s.pending s.queue
queue_after _ s = s.queue

abbrev IfDone : (Scrobbler → Type 0) → Outcome → Type 0
IfDone P aborted = Unit
IfDone P (done s es) = P s

abbrev HasQueue : List SongRecord → Outcome → Type 0
HasQueue q = IfDone λ s. s.queue ≡ q

submit-HasQueue : (env : Env) (s : Scrobbler) → HasQueue s.queue (scrobbler_submit env s)
unfolding scrobbler_submit
submit-HasQueue env s = ground arith

remove_oldest-drop :
    (n : ℕ) (q r : List SongRecord) → scrobbler_queue_remove_oldest n q ≡ some r → r ≡ drop n q
unfolding scrobbler_queue_remove_oldest
remove_oldest-drop zero q r h = ground arith
remove_oldest-drop (suc n) [] r h = cc
remove_oldest-drop (suc n) (x ∷ q) r h = remove_oldest-drop n q r h

assert-HasQueue :
    (b : Bool) (q : List SongRecord) (o : Outcome) → HasQueue q o → HasQueue q (assert b o)
assert-HasQueue true q o h = h
assert-HasQueue false q o h = tt

accepted-HasQueue :
    (env : Env) (s : Scrobbler) → HasQueue (drop s.pending s.queue) (submit_accepted env s)
unfolding submit_accepted
accepted-HasQueue env s = elim (Bool-cases (ltb 0 s.pending)) [
  | inl some_pending ↦ elim (Option-cases (scrobbler_queue_remove_oldest s.pending s.queue)) [
    | inl missing ↦ rw (some_pending, missing, submit_accepted) tt
    | inr (q, removed) ↦
        rw (some_pending, removed, submit_accepted)
          (subst (λ r. HasQueue r (scrobbler_submit env (record s { queue = q; pending = 0 })))
            (remove_oldest-drop s.pending s.queue q removed)
            (submit-HasQueue env (record s { queue = q; pending = 0 })))
  ]
  | inr none_pending ↦
      let zero_pending : s.pending ≡ 0 = ground arith in
      rw (none_pending, submit_accepted)
        (subst
          (λ (q : List SongRecord). HasQueue q (
            assert (record_is_defined s.now_playing)
              (scrobbler_submit env (record s { now_playing = record_zeroed }))))
          (sym (ap (λ (n : ℕ). drop n s.queue) zero_pending))
          (assert-HasQueue (record_is_defined s.now_playing) s.queue _
            (submit-HasQueue env (record s { now_playing = record_zeroed }))))
]

answered-HasQueue :
    (env : Env) (r : Submitting) (s : Scrobbler)
    → HasQueue (queue_answered r s.pending s.queue) (submit_answered env r s)
unfolding submit_answered
answered-HasQueue env submit_ok s = accepted-HasQueue env (record s { interval = 1 })
answered-HasQueue env submit_failed s = ground arith
answered-HasQueue env submit_handshake s = ground arith

handshake_answered-HasQueue :
    (env : Env) (session np sub : Bytes) (s : Scrobbler)
    → HasQueue s.queue (handshake_answered env session np sub s)
unfolding handshake_answered
handshake_answered-HasQueue env session np sub s = ground arith

handle-HasQueue :
    (env : Env) (e : Event) (s : Scrobbler) → HasQueue (queue_after e s) (handle env e s)
unfolding handle
handle-HasQueue env handshake_timer_fires s = unfold scrobbler_handshake_timer in ground arith
handle-HasQueue env handshake_fails s = unfold scrobbler_handshake_error in ground arith
handle-HasQueue env submit_timer_fires s = unfold scrobbler_submit_timer in ground arith
handle-HasQueue env submit_fails s = unfold scrobbler_submit_error in ground arith
handle-HasQueue env (handshake_replies response) s =
    unfold scrobbler_handshake_response in ground arith
handle-HasQueue env (submit_replies response) s = elim (Bool-cases (is_submitting s.state)) [
  | inl waiting ↦
      unfold scrobbler_submit_response in
      rw (waiting, scrobbler_submit_response)
        (answered-HasQueue env (parse_submit_response (first_line response))
          (record s { state = ready }))
  | inr idle ↦ unfold scrobbler_submit_response in rw (idle, scrobbler_submit_response) tt
]
handle-HasQueue env (song_announced song) s =
    unfold scrobbler_schedule_now_playing_callback in ground arith
handle-HasQueue env (song_finished song) s = unfold scrobbler_push_callback in ground arith

Ensures-queue :
    (a : Armed) (q : List SongRecord) (o : Outcome)
    → Good a o
    → HasQueue q o
    → Ensures (λ s es. s.queue ≡ q) o
Ensures-queue a q aborted g h = g
Ensures-queue a q (done s es) g h = h

-- In a consistent scrobbler every possible event, with announced songs that have an artist and a
-- title, leaves the queue as it was, but for a finished song, which is put behind it, and an
-- accepted submission, whose pending songs leave its front, and no assertion fails; timer ids are
-- positive.
pub handle-queue :
    (env : Env) (e : Event) (s : Scrobbler) (a : Armed)
    → 0 < env.source_id
    → IsConsistent s a
    → IsPossible e a
    → IsAnnounceable e
    → Ensures (λ s' es. s'.queue ≡ queue_after e s) (handle env e s)
handle-queue env e s a fresh h p n =
    Ensures-queue (consume e a) (queue_after e s) (handle env e s)
      (handle-Good env fresh e s a h p n) (handle-HasQueue env e s)
