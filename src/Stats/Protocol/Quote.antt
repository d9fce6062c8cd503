-- ===== src/Stats/Protocol/Quote.antt =====
-- SQL literals: what `quote` writes is read back by the rule of SQL, and cannot end early.
use mpdcron.Prelude.{
  ℕ, ◌≡◌, refl, ap, sym, ◌∙◌, false, ==_iff, Bytes, Option, none, some, Bool-cases, inl, inr, [],
  ◌∷◌, ◌++◌, ◌==◌, if◌then◌else◌,
}
use mpdcron.Stats.Protocol.{quote, quote_rest}

abbrev pub put : ℕ → Option (Bytes × Bytes) → Option (Bytes × Bytes)
put c none = none
put c (some (text, rest)) = some (c ∷ text, rest)

-- The text of a literal behind its opening quote, and what stands behind the literal. A quote that is
-- doubled stands for itself, any other ends the literal.
unfoldable pub literal : Bytes → Option (Bytes × Bytes)
literal [] = none
literal (c ∷ []) = if c == 39 then some ([], []) else none
literal (c ∷ d ∷ s) =
    let doubled = literal s in
    let plain = literal (d ∷ s) in
    if c == 39 then (if d == 39 then put c doubled else some ([], d ∷ s)) else put c plain

-- The literal does not go on into what follows it, which begins with no quote.
abbrev pub StartsPlain : Bytes → Type 0
StartsPlain [] = Unit
StartsPlain (c ∷ s) = (c == 39) ≡ false

pub literal-plain : (c : ℕ) (s : Bytes) → (c == 39) ≡ false → literal (c ∷ s) ≡ put c (literal s)
unfolding literal
literal-plain c [] h = rw (h, literal)
literal-plain c (d ∷ s) h = rw (h, literal)

pub literal-doubled : (s : Bytes) → literal (39 ∷ (39 ∷ s)) ≡ put 39 (literal s)
unfolding literal
literal-doubled s = refl

literal-quote_rest :
    (src rest : Bytes) → StartsPlain rest → literal (quote_rest src ++ rest) ≡ some (src, rest)
unfolding literal quote_rest
literal-quote_rest [] [] h = refl
literal-quote_rest [] (d ∷ rest) h = rw (h, literal)
literal-quote_rest (c ∷ src) rest h = elim (Bool-cases (c == 39)) [
  | inl special ↦
      rw (special, quote_rest)
        (literal-doubled (quote_rest src ++ rest)
          ∙ ap (put 39) (literal-quote_rest src rest h)
          ∙ ap (λ (d : ℕ). some (d ∷ src, rest)) (sym ((==_iff c 39).0 special)))
  | inr plain ↦
      rw (plain, quote_rest)
        (literal-plain c (quote_rest src ++ rest) plain
          ∙ ap (put c) (literal-quote_rest src rest h))
]

-- What quote writes, before any text that does not begin with a single quote, is read by the rule
-- of SQL as a literal of the quoted text with that text behind it.
pub literal-quote :
    (src rest : Bytes)
    → StartsPlain rest
    → (text : Bytes) × (quote src ++ rest ≡ 39 ∷ text) × (literal text ≡ some (src, rest))
unfolding quote
literal-quote src rest h = (quote_rest src ++ rest, refl, literal-quote_rest src rest h)
