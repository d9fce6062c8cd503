-- ===== src/Scrobbler/Types.antt =====
-- The state of a scrobbler (scrobbler-submit.c) and what its handlers ask of the main loop.
use mpdcron.Prelude.{ℕ, Bytes, Bool, true, false, Option, List}
use mpdcron.Scrobbler.Record.{SongRecord}

-- struct scrobbler_config (scrobbler-defs.h)
pub record Config : Type 0 where
  pub name : Bytes
  pub url : Bytes
  pub username : Bytes
  pub password : Bytes
  pub journal : Option Bytes

-- enum scrobbler_state
pub data State : Type 0 where
  nothing handshake ready submitting : State

abbrev pub is_nothing : State → Bool
is_nothing nothing = true
is_nothing _ = false

abbrev pub is_handshake : State → Bool
is_handshake handshake = true
is_handshake _ = false

abbrev pub is_ready : State → Bool
is_ready ready = true
is_ready _ = false

abbrev pub is_submitting : State → Bool
is_submitting submitting = true
is_submitting _ = false

-- struct scrobbler; a source id of 0 means that no timer is set.
pub record Scrobbler : Type 0 where
  pub config : Config
  pub state : State
  pub interval : ℕ
  pub handshake_source_id : ℕ
  pub submit_source_id : ℕ
  pub session : Option Bytes
  pub nowplay_url : Option Bytes
  pub submit_url : Option Bytes
  pub now_playing : SongRecord
  pub queue : List SongRecord
  pub pending : ℕ

-- What the calls of other libraries return while one handler runs: the escaping of
-- g_uri_escape_string, the MD5 checksum of g_compute_checksum_for_string, the clock, the id of the
-- timer that g_timeout_add_seconds makes, and VERSION of the build.
pub record Env : Type 0 where
  pub escape : Bytes → Bytes
  pub md5 : Bytes → Bytes
  pub now : ℕ
  pub source_id : ℕ
  pub version : Bytes

-- Which handler table http_client_request is given, and which timer callback is set.
pub data Handler : Type 0 where
  handshake_handler submit_handler : Handler

pub data Timer : Type 0 where
  handshake_timer submit_timer : Timer

-- Calls that reach the main loop, in the order in which they are made.
pub data Effect : Type 0 where
  request : Option Bytes → Option Bytes → Handler → Effect
  timeout : ℕ → Timer → Effect

-- `aborted` is a failed assertion, or a null pointer that is followed.
pub data Outcome : Type 0 where
  aborted : Outcome
  done : Scrobbler → List Effect → Outcome

-- assert(test)
abbrev pub assert : Bool → Outcome → Outcome
assert true rest = rest
assert false rest = aborted
