-- ===== src/Scrobbler/Submit/Session.antt =====
-- The answer to a handshake.
use mpdcron.Prelude.{◌≡◌, ◌++◌, ◌∷◌, Bytes, starts_with, ◌||◌, is_empty, some, none, if◌then◌else◌}
use mpdcron.Scrobbler.Types.{Scrobbler, Env, handshake, nothing, ready}
use mpdcron.Scrobbler.Response.{text_ok, parse_handshake_response}
use mpdcron.Scrobbler.Response.Lines.{IsLine, next_line-append}
use mpdcron.Scrobbler.Submit.{
  scrobbler_handshake_response, scrobbler_submit, scrobbler_increase_interval,
  scrobbler_schedule_handshake,
}

-- The four lines of an answer, as the server writes them.
abbrev pub answer : Bytes → Bytes → Bytes → Bytes → Bytes → Bytes
answer line session nowplay_url submit_url rest =
    line
    ++ (b'\n' ∷ (session ++ (b'\n' ∷ (nowplay_url ++ (b'\n' ∷ (submit_url ++ (b'\n' ∷ rest)))))))

-- In the handshake state, an answer of four lines without newlines and zero bytes opens a session
-- with the second, third and fourth line if the first begins with OK and the last two are not
-- empty, and otherwise increases the interval and schedules a new handshake.
pub handshake_response-answer :
    (env : Env) (line session nowplay_url submit_url rest : Bytes) (s : Scrobbler)
    → s.state ≡ handshake
    → IsLine line
    → IsLine session
    → IsLine nowplay_url
    → IsLine submit_url
    → scrobbler_handshake_response env (answer line session nowplay_url submit_url rest) s ≡ (
        if starts_with line text_ok
        then (if is_empty nowplay_url || is_empty submit_url
            then scrobbler_schedule_handshake env (
                scrobbler_increase_interval (record s {
                  state = nothing;
                  session = none;
                  nowplay_url = none;
                  submit_url = none;
                }))
            else scrobbler_submit env (record s {
              session = some session;
              nowplay_url = some nowplay_url;
              submit_url = some submit_url;
              state = ready;
              interval = 1;
            }))
        else scrobbler_schedule_handshake env
            (scrobbler_increase_interval (record s { state = nothing })))
unfolding scrobbler_handshake_response parse_handshake_response
handshake_response-answer env line session np sub rest s st h1 h2 h3 h4 =
    let e1 =
      next_line-append line (session ++ (b'\n' ∷ (np ++ (b'\n' ∷ (sub ++ (b'\n' ∷ rest)))))) h1 in
    let e2 = next_line-append session (np ++ (b'\n' ∷ (sub ++ (b'\n' ∷ rest)))) h2 in
    let e3 = next_line-append np (sub ++ (b'\n' ∷ rest)) h3 in
    let e4 = next_line-append sub rest h4 in rw (st, e1, e2, e3, e4, scrobbler_handshake_response)
