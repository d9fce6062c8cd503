-- ===== src/Stats/Server.antt =====
-- The statistics server, from a line to an answer: the handlers of stats-command.c, command_process,
-- and what they write to the client.
pub mod Changes
pub mod Lists
pub mod Serve
pub mod Readers
pub mod Guard
pub mod Safety
pub mod Clients
use mpdcron.Prelude.{
  ℕ, suc, ◌+◌, Bytes, codes, decimal, Bool, true, false, ◌||◌, not, Option, none, some, List, [],
  ◌∷◌, ◌++◌, if◌then◌else◌,
}
use mpdcron.Prelude.Int.{ℤ, pos, negsuc, ltb_ℤ}
use mpdcron.Prelude.Number.{strtol}
use mpdcron.Stats.Database.{Result, ok, error}
use mpdcron.Stats.Command.{Permission, Ack, ack_arg, ack_password, ack_code}

-- struct client, the database, what was written to the client, and current_command.
pub record Server (D : Type 0) : Type 0 where
  pub database : D
  pub permission : Permission
  pub output : Bytes
  pub current_command : Option Bytes

-- enum command_return, of which no handler returns the other two values.
pub data Return : Type 0 where
  return_error return_ok : Return

-- `aborted` is a failed assertion, or a null pointer that is followed, with the database as it then is.
pub data Served (D : Type 0) : Type 0 where
  aborted : D → Served D
  served : Return → Server D → Served D

-- The table globalconf.passwords, where no permission stands for a missing entry; g_strerror(ERANGE);
-- the time as strftime prints it for "%Y-%m-%dT%H:%M:%S%z".
pub record Host : Type 0 where
  pub passwords : Bytes → Permission
  pub strerror_erange : Bytes
  pub strftime : ℤ → Bytes

-- "ACK [%i] {%s} " and the message.
unfoldable pub ack_text : ℕ → Bytes → Bytes → Bytes
ack_text code command message =
    codes "ACK [" ++ (decimal code ++ (codes "] {" ++ (command ++ (codes "} " ++ message))))

abbrev pub int_max : ℤ
int_max = pos 2147483647

abbrev pub int_min : ℤ
int_min = negsuc 2147483647

module _ {D : Type 0} where
  -- command_puts: the message and a newline.
  unfoldable pub command_puts : Bytes → Server D → Server D
  command_puts message s = record s { output = s.output ++ (message ++ (b'\n' ∷ [])) }

  unfoldable pub command_ok : Server D → Server D
  command_ok s = record s { output = s.output ++ codes "OK\n" }

  -- command_error, with the return of COMMAND_RETURN_ERROR that follows each call.
  unfoldable pub command_error : ℕ → Bytes → Server D → Served D
  unfolding ack_text
  command_error code message s = elim s.current_command [
    | none ↦ aborted s.database
    | some command ↦ served return_error (record s {
      output = s.output ++ (ack_text code command message ++ (b'\n' ∷ []));
      current_command = none;
    })
  ]

  -- How the handlers of changes end.
  unfoldable pub answer_changes : Result ℕ × D → Server D → Served D
  unfolding command_puts command_ok command_error
  answer_changes (ok changes, d) s =
      served return_ok (
        command_ok
          (command_puts (codes "changes: " ++ decimal changes) (record s { database = d })))
  answer_changes (error code message, d) s = command_error code message (record s { database = d })

  -- g_assert(argc == 2) and g_assert(argc == 3)
  abbrev pub with_one : List Bytes → Server D → (Bytes → Served D) → Served D
  with_one (expr ∷ []) s rest = rest expr
  with_one [] s rest = aborted s.database
  with_one (expr ∷ (x ∷ args)) s rest = aborted s.database

  abbrev pub with_two : List Bytes → Server D → (Bytes → Bytes → Served D) → Served D
  with_two (expr ∷ value ∷ []) s rest = rest expr value
  with_two [] s rest = aborted s.database
  with_two (expr ∷ []) s rest = aborted s.database
  with_two (expr ∷ value ∷ (x ∷ args)) s rest = aborted s.database

  -- The conversion of the second argument, and what follows with its value.
  unfoldable pub with_number : Host → Bytes → (ℤ → Served D) → Server D → Served D
  unfolding command_error ack_code
  with_number h value rest s =
      let number = strtol value in
      if number.erange
      then command_error (ack_code ack_arg)
          (codes "Failed to convert to number: " ++ h.strerror_erange) s
      else if not number.converted
      then command_error (ack_code ack_arg) (codes "No digits found") s
      else if ltb_ℤ int_max number.value || ltb_ℤ number.value int_min
      then command_error (ack_code ack_arg)
          (codes "Number too "
            ++ (if ltb_ℤ int_max number.value then codes "big" else codes "small"))
          s
      else rest number.value
