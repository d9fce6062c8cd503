-- ===== src/Stats/Protocol.antt =====
-- What the eugene client writes: escape and mpdcron_send_commandv of eugene-connection.c, and quote of
-- eugene-utils.c.
pub mod Quote
use mpdcron.Prelude.{ℕ, Bytes, Bool, ◌||◌, List, [], ◌∷◌, ◌++◌, ◌==◌, if◌then◌else◌}

unfoldable pub escape : Bytes → Bytes
escape [] = []
escape (c ∷ s) = let rest = escape s in if c == b'"' || c == 92 then 92 ∷ (c ∷ rest) else c ∷ rest

-- The arguments, each behind a space and in quotes.
unfoldable pub arguments : List Bytes → Bytes
unfolding escape
arguments [] = []
arguments (arg ∷ args) = b' ' ∷ (b'"' ∷ (escape arg ++ (b'"' ∷ arguments args)))

-- The line of a command, without the newline that ends it.
unfoldable pub send_commandv : Bytes → List Bytes → Bytes
unfolding arguments
send_commandv command args = command ++ arguments args

-- An SQL string literal: quotes inside are doubled.
unfoldable pub quote_rest : Bytes → Bytes
quote_rest [] = 39 ∷ []
quote_rest (c ∷ s) = let rest = quote_rest s in if c == 39 then 39 ∷ (39 ∷ rest) else c ∷ rest

unfoldable pub quote : Bytes → Bytes
unfolding quote_rest
quote src = 39 ∷ quote_rest src
