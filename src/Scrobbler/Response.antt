-- ===== src/Scrobbler/Response.antt =====
-- The answers of the submission server: the parsers of scrobbler-submit.c.
pub mod Lines
use mpdcron.Prelude.{
  Bytes, codes, bytes_eq, starts_with, Bool, true, false, Option, none, some, [], ◌∷◌, ◌==◌,
  if◌then◌else◌,
}

-- as_submitting
pub data Submitting : Type 0 where
  submit_ok submit_failed submit_handshake : Submitting

abbrev pub text_ok : Bytes
text_ok = codes "OK"

abbrev pub text_badsession : Bytes
text_badsession = codes "BADSESSION"

abbrev pub text_failed : Bytes
text_failed = codes "FAILED"

-- Every branch but the first two logs a warning and fails.
unfoldable pub parse_submit_response : Bytes → Submitting
parse_submit_response line =
    if bytes_eq line text_ok
    then submit_ok
    else if bytes_eq line text_badsession
    then submit_handshake
    else submit_failed

-- The branches for BANNED, BADAUTH, BADTIME, FAILED and anything else differ in what they log.
unfoldable pub parse_handshake_response : Bytes → Bool
parse_handshake_response line = starts_with line text_ok

-- memchr(s, '\n', length): what stands before the newline, and what stands behind it.
unfoldable pub split_newline : Bytes → Option (Bytes × Bytes)
split_newline [] = none
split_newline (c ∷ s) =
    if c == b'\n'
    then some ([], s)
    else elim (split_newline s) [ none ↦ none | some (before, after) ↦ some (c ∷ before, after) ]

-- What is left of a buffer that is read as a C string: the bytes before the first zero.
unfoldable pub c_string : Bytes → Bytes
c_string [] = []
c_string (c ∷ s) = let rest = c_string s in if c == 0 then [] else c ∷ rest

-- next_line: the line and the input behind it; with no newline, "" and the input as it was.
unfoldable pub next_line : Bytes → Bytes × Bytes
next_line input = elim (split_newline input) [
  | none ↦ ([], input)
  | some (before, after) ↦ (c_string before, after)
]

-- The part of a submit response that is parsed: up to the newline, if there is one.
unfoldable pub first_line : Bytes → Bytes
first_line response = elim (split_newline response) [
  | none ↦ response
  | some (before, after) ↦ before
]
