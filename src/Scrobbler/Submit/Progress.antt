-- ===== src/Scrobbler/Submit/Progress.antt =====
-- What the answers of a good server leave to do for a scrobbler of scrobbler-submit.c.
use mpdcron.Prelude.{
  ℕ, suc, ◌+◌, ◌*◌, ◌≤◌, ◌<◌, ◌≡◌, refl, sym, subst, ap, codes, Bool, true, false, Bool-cases, inl,
  inr, is_empty, List, [], ◌∷◌, length, drop, starts_with, bytes_eq, zero, arith, ltb, ◌==◌,
  if◌then◌else◌, some, Bytes, ◌++◌,
}
use Prim.Native.Nat.{min}
use mpdcron.Scrobbler.Record.{SongRecord, record_is_defined, record_zeroed}
use mpdcron.Scrobbler.Request.{add_songs, add_var}
use mpdcron.Scrobbler.Types.{
  State, nothing, handshake, ready, submitting, Scrobbler, Env, Outcome, done, aborted, assert,
  is_ready, is_nothing, is_submitting,
}
use mpdcron.Scrobbler.Response.{text_ok, split_newline, parse_submit_response, first_line}
use mpdcron.Scrobbler.Response.Lines.{IsLine}
use mpdcron.Scrobbler.Submit.Session.{answer, handshake_response-answer}
use mpdcron.Scrobbler.Submit.{
  scrobbler_submit, scrobbler_handshake_timer, scrobbler_submit_timer, scrobbler_submit_response,
  submit_accepted, submit_answered,
}
use mpdcron.Scrobbler.Submit.System.{
  Event, handshake_timer_fires, handshake_replies, submit_timer_fires, submit_replies, handle,
  Armed, IsPossible,
}
use mpdcron.Scrobbler.Submit.Consistent.{IsConsistent, InPhase}
use mpdcron.Scrobbler.Submit.Handlers.{add_songs-count, remove_oldest-drop}

-- What a good server answers: to a handshake four lines, of which the first begins with OK, and to a
-- submission a line OK, each followed by any text.
pub record Reply : Type 0 where
  pub line : Bytes
  pub session : Bytes
  pub nowplay_url : Bytes
  pub submit_url : Bytes
  pub rest : Bytes
  pub accepts : starts_with line text_ok ≡ true
  pub line-IsLine : IsLine line
  pub session-IsLine : IsLine session
  pub nowplay_url-IsLine : IsLine nowplay_url
  pub submit_url-IsLine : IsLine submit_url
  pub has_nowplay_url : is_empty nowplay_url ≡ false
  pub has_submit_url : is_empty submit_url ≡ false

-- What a good server and the clock bring about next.
abbrev pub good_event : Reply → State → Event
good_event reply nothing = handshake_timer_fires
good_event reply handshake =
    handshake_replies
      (answer reply.line reply.session reply.nowplay_url reply.submit_url reply.rest)
good_event reply ready = submit_timer_fires
good_event reply submitting = submit_replies (codes "OK" ++ (b'\n' ∷ reply.rest))

abbrev phase : State → ℕ → ℕ
phase nothing n = 4
phase handshake n = 3
phase ready n = 2
phase submitting zero = 3
phase submitting (suc n) = 1

-- What is left to do.
abbrev pub work : Scrobbler → ℕ
work s = 3 * length s.queue + phase s.state s.pending

abbrev Possible : Reply → State → Scrobbler → Armed → Type 0
Possible reply st s a = (st ≡ s.state) → IsPossible (good_event reply st) a

pub possible :
    (reply : Reply) (st : State) (s : Scrobbler) (a : Armed)
    → IsConsistent s a
    → is_empty s.queue ≡ false
    → Possible reply st s a
possible reply nothing s a h some_song e =
    ground (arith, subst (λ x. InPhase x s a) (sym e) h.phase)
possible reply handshake s a h some_song e =
    ground (arith, subst (λ x. InPhase x s a) (sym e) h.phase)
possible reply ready s a h some_song e = ground (arith, subst (λ x. InPhase x s a) (sym e) h.phase)
possible reply submitting s a h some_song e =
    ground (arith, subst (λ x. InPhase x s a) (sym e) h.phase)

-- At most so much work is left.
abbrev pub Leaves : ℕ → Outcome → Type 0
Leaves n aborted = Unit
Leaves n (done s es) = work s < n

pub phase_le : (st : State) (n : ℕ) → phase st n ≤ 4
phase_le nothing n = omega arith
phase_le handshake n = omega arith
phase_le ready n = omega arith
phase_le submitting zero = omega arith
phase_le submitting (suc n) = omega arith

submitting_pos : (n : ℕ) → 0 < n → phase submitting n ≡ 1
submitting_pos zero h = absurd (omega arith)
submitting_pos (suc n) h = refl

submitting_le : (n : ℕ) → phase submitting n ≤ 3
submitting_le zero = omega arith
submitting_le (suc n) = omega arith

ready_phase : (st : State) (n : ℕ) → is_ready st ≡ true → phase st n ≡ 2
ready_phase nothing n h = absurd (ground (arith, h))
ready_phase handshake n h = absurd (ground (arith, h))
ready_phase ready n h = refl
ready_phase submitting n h = absurd (ground (arith, h))

assert-Leaves : (b : Bool) (n : ℕ) (o : Outcome) → (b ≡ true → Leaves n o) → Leaves n (assert b o)
assert-Leaves true n o h = h refl
assert-Leaves false n o h = tt

pub length-some : (q : List SongRecord) → is_empty q ≡ false → 0 < length q
length-some [] h = absurd (ground (arith, h))
length-some (song ∷ q) h = omega arith

submit-Leaves :
    (env : Env) (s : Scrobbler)
    → Leaves (3 * length s.queue + (if is_empty s.queue then 4 else 2)) (scrobbler_submit env s)
unfolding scrobbler_submit
submit-Leaves env s = elim (Bool-cases (is_ready s.state)) [
  | inr other ↦ rw (other, scrobbler_submit) tt
  | inl is_it ↦ elim (Bool-cases (s.submit_source_id == 0)) [
    | inr timer ↦ rw (is_it, timer, scrobbler_submit) tt
    | inl idle ↦ elim (Bool-cases (is_empty s.queue)) [
      | inl no_song ↦ elim (Bool-cases (record_is_defined s.now_playing)) [
        | inl playing ↦
            rw (no_song, is_it, idle, playing, scrobbler_submit)
              (omega (arith, submitting_le s.pending))
        | inr silent ↦
            rw (no_song, is_it, idle, silent, scrobbler_submit)
              (omega (arith, ready_phase s.state s.pending is_it))
      ]
      | inr some_song ↦
          let count = (add_songs env 10 0 (add_var env [] (codes "s") s.session) s.queue).1 in
          let sent : count ≡ 0 + min 10 (length s.queue) =
            add_songs-count env 10 0 (add_var env [] (codes "s") s.session) s.queue in
          rw (some_song, is_it, idle, scrobbler_submit)
            (omega
              (arith, submitting_pos count (omega (arith, sent, length-some s.queue some_song))))
    ]
  ]
]

length-drop_le : (n : ℕ) (q : List SongRecord) → length (drop n q) ≤ length q
length-drop_le zero q = omega arith
length-drop_le (suc n) [] = omega arith
length-drop_le (suc n) (song ∷ q) = omega (arith, length-drop_le n q)

fewer : (n : ℕ) (q : List SongRecord) → 0 < n → n ≤ length q → length (drop n q) < length q
fewer zero q h k = absurd (omega arith)
fewer (suc n) [] h k = absurd (omega arith)
fewer (suc n) (song ∷ q) h k = omega (arith, length-drop_le n q)

pub Leaves-mono : (m n : ℕ) (o : Outcome) → m ≤ n → Leaves m o → Leaves n o
Leaves-mono m n aborted h k = tt
Leaves-mono m n (done s es) h k = omega arith

left_bound :
    (q : List SongRecord) (m : ℕ)
    → length q < m
    → 3 * length q + (if is_empty q then 4 else 2) ≤ 3 * m + 1
left_bound [] m h = omega arith
left_bound (song ∷ q) m h = omega arith

some_left :
    (q : List SongRecord)
    → is_empty q ≡ false
    → 3 * length q + (if is_empty q then 4 else 2) ≡ 3 * length q + 2
some_left q h = rw h refl

-- The server's good answer to a submission.
accepted-Leaves :
    (env : Env) (s : Scrobbler)
    → is_empty s.queue ≡ false
    → s.pending ≤ length s.queue
    → Leaves (3 * length s.queue + phase submitting s.pending) (submit_accepted env s)
unfolding submit_accepted
accepted-Leaves env s some_song within = elim (Bool-cases (ltb 0 s.pending)) [
  | inl some_pending ↦
      let (r, removed, rest) = remove_oldest-drop s.pending s.queue within in
      let less : length r < length s.queue =
        subst (λ (q : List SongRecord). length q < length s.queue) (sym rest)
          (fewer s.pending s.queue (ground arith) within) in
      rw (some_pending, removed, submit_accepted)
        (Leaves-mono (3 * length r + (if is_empty r then 4 else 2)) _ _
          (omega
            (arith, left_bound r (length s.queue) less, submitting_pos s.pending (ground arith)))
          (submit-Leaves env (record s { queue = r; pending = 0 })))
  | inr none_pending ↦
      let zero_pending : s.pending ≡ 0 = ground arith in
      rw (none_pending, submit_accepted)
        (assert-Leaves (record_is_defined s.now_playing) _ _ (λ defined.
          Leaves-mono (3 * length s.queue + (if is_empty s.queue then 4 else 2)) _ _
            (omega (arith, some_left s.queue some_song, ap (phase submitting) zero_pending))
            (submit-Leaves env (record s { now_playing = record_zeroed }))))
]

pub progress :
    (st : State) (env : Env) (reply : Reply) (s : Scrobbler)
    → st ≡ s.state
    → is_empty s.queue ≡ false
    → s.pending ≤ length s.queue
    → Leaves (3 * length s.queue + phase st s.pending) (handle env (good_event reply st) s)
unfolding handle starts_with bytes_eq
progress nothing env reply s e some_song within =
    unfold scrobbler_handshake_timer in
    assert-Leaves (is_nothing s.state) _ _ (λ waiting. omega arith)
progress handshake env reply s e some_song within =
    rw
      (
        handshake_response-answer env reply.line reply.session reply.nowplay_url reply.submit_url
            reply.rest s (sym e) reply.line-IsLine reply.session-IsLine reply.nowplay_url-IsLine
            reply.submit_url-IsLine,
        reply.accepts,
        reply.has_nowplay_url,
        reply.has_submit_url,
      )
      (Leaves-mono (3 * length s.queue + (if is_empty s.queue then 4 else 2)) _ _
        (omega (arith, some_left s.queue some_song))
        (submit-Leaves env (record s {
          session = some reply.session;
          nowplay_url = some reply.nowplay_url;
          submit_url = some reply.submit_url;
          state = ready;
          interval = 1;
        })))
progress ready env reply s e some_song within =
    unfold scrobbler_submit_timer in
    assert-Leaves (is_ready s.state) _ _ (λ waiting.
      Leaves-mono (3 * length s.queue + (if is_empty s.queue then 4 else 2)) _ _
        (omega (arith, some_left s.queue some_song))
        (submit-Leaves env (record s { submit_source_id = 0 })))
progress submitting env reply s e some_song within =
    unfold scrobbler_submit_response submit_answered parse_submit_response first_line
      split_newline in
    assert-Leaves (is_submitting s.state) _ _
      (λ waiting. accepted-Leaves env (record s { state = ready; interval = 1 }) some_song within)
