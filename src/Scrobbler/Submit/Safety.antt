-- ===== src/Scrobbler/Submit/Safety.antt =====
-- Safety of the scrobbler in the main loop.
use mpdcron.Prelude.{◌<◌, ◌≢◌, subst, List, arith}
use mpdcron.Scrobbler.Record.{SongRecord}
use mpdcron.Scrobbler.Types.{Config, Scrobbler, Env, aborted}
use mpdcron.Scrobbler.Submit.{scrobbler_new, scrobbler_schedule_handshake}
use mpdcron.Scrobbler.Submit.System.{
  Event, Armed, arm, consume, IsPossible, IsAnnounceable, handle, System, Reach, start, next,
  scrobbler_started, unarmed,
}
use mpdcron.Scrobbler.Submit.Consistent.{IsConsistent, Good}
use mpdcron.Scrobbler.Submit.Handlers.{handle-Good}

started-Good :
    (env : Env)
    → 0 < env.source_id
    → (config : Config) (journal : List SongRecord)
    → Good unarmed (scrobbler_started env config journal)
unfolding scrobbler_started scrobbler_new scrobbler_schedule_handshake arm
started-Good env fresh config journal = ground arith

-- Every scrobbler that the main loop can bring about, with announced songs that have an artist and
-- a title, has just the timer or the request of its state, or is ready with neither and with
-- nothing to send; its pending count is within the queue and at most ten, and its interval between
-- one second and two hours.
pub Reach-IsConsistent :
    {config : Config} {t : System} → Reach config t → IsConsistent t.scrobbler t.armed
unfolding scrobbler_started
Reach-IsConsistent (start env journal s es fresh e) =
    subst (Good unarmed) e (started-Good env fresh _ journal)
Reach-IsConsistent (next env e s s' a es r fresh p n h) =
    let good = handle-Good env fresh e s a (Reach-IsConsistent r) p n in
    subst (Good (consume e a)) h good

-- In every system that the main loop can bring about from a start with any journal, no event that
-- it can deliver makes an assertion of scrobbler-submit.c fail or a null record be followed, as
-- long as every announced song has an artist and a title and timer ids are positive.
pub Reach-ne-aborted :
    {config : Config} {s : Scrobbler} {a : Armed} (env : Env) (e : Event)
    → Reach config (record { scrobbler = s; armed = a })
    → 0 < env.source_id
    → IsPossible e a
    → IsAnnounceable e
    → handle env e s ≢ aborted
Reach-ne-aborted {s = s} {a = a} env e r fresh p n h =
    subst (Good (consume e a)) h (handle-Good env fresh e s a (Reach-IsConsistent r) p n)
