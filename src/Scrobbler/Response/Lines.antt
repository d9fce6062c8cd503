-- ===== src/Scrobbler/Response/Lines.antt =====
-- What the parsers of server answers accept.
use mpdcron.Prelude.{◌≡◌, ◌≢◌, refl, Bytes, some, [], ◌∷◌, ◌++◌, All, arith, Option-cases}
use mpdcron.Scrobbler.Response.{split_newline, next_line, c_string}

-- Cutting at the newline: the parts put together are the input, and the first has no newline.
split_newline-some :
    (s before after : Bytes)
    → split_newline s ≡ some (before, after)
    → (s ≡ before ++ (b'\n' ∷ after)) × All (λ c. c ≢ b'\n') before
unfolding split_newline
split_newline-some [] before after e = cc
split_newline-some (c ∷ s) [] after e = ground (arith, Option-cases (split_newline s))
split_newline-some (c ∷ s) (d ∷ before) after e =
    ground (arith, Option-cases (split_newline s), split_newline-some s before after)

split_newline-append :
    (before after : Bytes)
    → All (λ c. c ≢ b'\n') before
    → split_newline (before ++ (b'\n' ∷ after)) ≡ some (before, after)
unfolding split_newline
split_newline-append [] after h = refl
split_newline-append (c ∷ before) after h = ground (arith, split_newline-append before after h.1)

-- A C string has no zero byte; a line of an answer has no newline either.
abbrev pub IsLine : Bytes → Type 0
IsLine = All λ c. (c ≢ b'\n') × (c ≢ 0)

c_string-IsLine : (s : Bytes) → IsLine s → c_string s ≡ s
unfolding c_string
c_string-IsLine [] h = refl
c_string-IsLine (c ∷ s) h = ground (arith, c_string-IsLine s h.1)

split_newline-IsLine :
    (line after : Bytes)
    → IsLine line
    → split_newline (line ++ (b'\n' ∷ after)) ≡ some (line, after)
unfolding split_newline
split_newline-IsLine [] after h = refl
split_newline-IsLine (c ∷ line) after h = ground (arith, split_newline-IsLine line after h.1)

-- A line that was written with its newline is read back, and the rest is left.
pub next_line-append :
    (line after : Bytes) → IsLine line → next_line (line ++ (b'\n' ∷ after)) ≡ (line, after)
unfolding next_line
next_line-append line after h =
    rw (split_newline-IsLine line after h, next_line) (rw (c_string-IsLine line h))
