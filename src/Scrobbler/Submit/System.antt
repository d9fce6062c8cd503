-- ===== src/Scrobbler/Submit/System.antt =====
-- One scrobbler inside the main loop of GLib: the timers that are set and the requests under way,
-- and the events that they make possible. The callbacks of scrobbler-submit.c run one at a time.
use mpdcron.Prelude.{ℕ, ◌+◌, ◌-◌, ◌<◌, ◌≡◌, Bytes, true, List, [], ◌∷◌}
use mpdcron.Scrobbler.Record.{SongRecord, record_is_defined}
use mpdcron.Scrobbler.Types.{
  Config, Scrobbler, Env, handshake_handler, submit_handler, handshake_timer, submit_timer, Effect,
  request, timeout, Outcome, done,
}
use mpdcron.Scrobbler.Submit.{
  scrobbler_new, scrobbler_schedule_handshake, scrobbler_handshake_timer,
  scrobbler_handshake_response, scrobbler_handshake_error, scrobbler_submit_response,
  scrobbler_submit_error, scrobbler_submit_timer, scrobbler_schedule_now_playing_callback,
  scrobbler_push_callback,
}

pub data Event : Type 0 where
  handshake_timer_fires handshake_fails submit_timer_fires submit_fails : Event
  handshake_replies submit_replies : Bytes → Event
  song_announced song_finished : SongRecord → Event

unfoldable pub handle : Env → Event → Scrobbler → Outcome
handle env handshake_timer_fires s = scrobbler_handshake_timer env s
handle env handshake_fails s = scrobbler_handshake_error env s
handle env submit_timer_fires s = scrobbler_submit_timer env s
handle env submit_fails s = scrobbler_submit_error env s
handle env (handshake_replies response) s = scrobbler_handshake_response env response s
handle env (submit_replies response) s = scrobbler_submit_response env response s
handle env (song_announced song) s = scrobbler_schedule_now_playing_callback env song s
handle env (song_finished song) s = scrobbler_push_callback env song s

-- How many timers of each kind are set, and how many requests of each kind are under way.
pub record Armed : Type 0 where
  pub handshake_timers : ℕ
  pub submit_timers : ℕ
  pub handshake_requests : ℕ
  pub submit_requests : ℕ

abbrev pub unarmed : Armed
unarmed = record {
  handshake_timers = 0;
  submit_timers = 0;
  handshake_requests = 0;
  submit_requests = 0;
}

-- The main loop delivers only what was asked for; songs come from the player at any time.
abbrev pub IsPossible : Event → Armed → Type 0
IsPossible handshake_timer_fires a = 0 < a.handshake_timers
IsPossible handshake_fails a = 0 < a.handshake_requests
IsPossible (handshake_replies response) a = 0 < a.handshake_requests
IsPossible submit_timer_fires a = 0 < a.submit_timers
IsPossible submit_fails a = 0 < a.submit_requests
IsPossible (submit_replies response) a = 0 < a.submit_requests
IsPossible (song_announced song) a = Unit
IsPossible (song_finished song) a = Unit

-- A callback returns false, so its timer is gone; a request ends with its handler.
unfoldable pub consume : Event → Armed → Armed
consume handshake_timer_fires a = record a { handshake_timers = a.handshake_timers - 1 }
consume handshake_fails a = record a { handshake_requests = a.handshake_requests - 1 }
consume (handshake_replies response) a = record a { handshake_requests = a.handshake_requests - 1 }
consume submit_timer_fires a = record a { submit_timers = a.submit_timers - 1 }
consume submit_fails a = record a { submit_requests = a.submit_requests - 1 }
consume (submit_replies response) a = record a { submit_requests = a.submit_requests - 1 }
consume (song_announced song) a = a
consume (song_finished song) a = a

unfoldable pub arm : List Effect → Armed → Armed
arm [] a = a
arm (request url body handshake_handler ∷ es) a =
    arm es (record a { handshake_requests = a.handshake_requests + 1 })
arm (request url body submit_handler ∷ es) a =
    arm es (record a { submit_requests = a.submit_requests + 1 })
arm (timeout seconds handshake_timer ∷ es) a =
    arm es (record a { handshake_timers = a.handshake_timers + 1 })
arm (timeout seconds submit_timer ∷ es) a =
    arm es (record a { submit_timers = a.submit_timers + 1 })

-- What the player module may announce: scrobbler_schedule_submit wants artist and track.
abbrev pub IsAnnounceable : Event → Type 0
IsAnnounceable (song_announced song) = record_is_defined song ≡ true
IsAnnounceable _ = Unit

pub record System : Type 0 where
  pub scrobbler : Scrobbler
  pub armed : Armed

-- scrobbler_new_callback, with the queue that journal_read returned.
unfoldable pub scrobbler_started : Env → Config → List SongRecord → Outcome
unfolding scrobbler_new scrobbler_schedule_handshake
scrobbler_started env config journal =
    scrobbler_schedule_handshake env (record (scrobbler_new config) { queue = journal })

-- The systems that the main loop can bring about.
pub data Reach (config : Config) : System → Type 0 where
  start :
      (env : Env) (journal : List SongRecord) (s : Scrobbler) (es : List Effect)
      → 0 < env.source_id
      → scrobbler_started env config journal ≡ done s es
      → Reach config (record { scrobbler = s; armed = arm es unarmed })
  next :
      (env : Env) (e : Event) (s s' : Scrobbler) (a : Armed) (es : List Effect)
      → Reach config (record { scrobbler = s; armed = a })
      → 0 < env.source_id
      → IsPossible e a
      → IsAnnounceable e
      → handle env e s ≡ done s' es
      → Reach config (record { scrobbler = s'; armed = arm es (consume e a) })
