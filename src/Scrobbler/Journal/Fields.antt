-- ===== src/Scrobbler/Journal/Fields.antt =====
-- A field that the journal's writer wrote is read back.
use mpdcron.Prelude.{
  ℕ, zero, suc, ◌≤◌, ◌<◌, ◌≡◌, ◌≢◌, refl, ap, ◌∙◌, Bytes, false, Bool-cases, inl, inr, some, List,
  [], ◌∷◌, ◌++◌, All, length, ◌==◌, arith,
}
use mathlib.Core.List.{append_assoc}
use mpdcron.Scrobbler.Response.{c_string}
use mpdcron.Scrobbler.Journal.{
  Reader, Strings, journal_write_string, fgets_lines, cons_first, split_equals, key_value,
  journal_line, journal_lines, set_field,
}

-- The reader on a text.
abbrev pub read_text : Strings → Bytes → Reader → Reader
read_text g text r = journal_lines g (fgets_lines 1022 text) r

fgets_lines-line :
    (body rest : Bytes) (room : ℕ)
    → length body ≤ room
    → All (λ c. c ≢ b'\n') body
    → fgets_lines room (body ++ (b'\n' ∷ rest)) ≡ (body ++ (b'\n' ∷ [])) ∷ fgets_lines 1022 rest
unfolding fgets_lines cons_first
fgets_lines-line [] rest zero h clean = refl
fgets_lines-line [] rest (suc room) h clean = refl
fgets_lines-line (c ∷ body) rest zero h clean = absurd (omega arith)
fgets_lines-line (c ∷ body) rest (suc room) h clean =
    let other : (c == b'\n') ≡ false = ground (arith, clean.0) in
    rw (other, fgets_lines, fgets_lines-line body rest room (omega arith) clean.1) refl

c_string-line : (s : Bytes) → All (λ c. c ≢ 0) s → c_string (s ++ (b'\n' ∷ [])) ≡ s ++ (b'\n' ∷ [])
unfolding c_string
c_string-line [] h = refl
c_string-line (c ∷ s) h = ground (arith, c_string-line s h.1)

module _ (g : Strings) where
  -- No whitespace in front.
  abbrev pub IsChugged : Bytes → Type 0
  IsChugged [] = Unit
  IsChugged (c ∷ s) = 32 < c

  -- A value that one line of the journal can hold.
  pub record IsStorable (v : Bytes) : Type 0 where
    pub no_newline : All (λ c. c ≢ b'\n') v
    pub no_zero : All (λ c. c ≢ 0) v
    pub chugged : IsChugged v
    pub chomped : g.strchomp v ≡ v
    pub short : length v ≤ 1018

  graph_is_no_space : (c : ℕ) → 32 < c → g.isspace c ≡ false
  graph_is_no_space c h = elim (Bool-cases (g.isspace c)) [
    | inl space ↦ absurd (omega (arith, g.space_le c space))
    | inr other ↦ other
  ]

  strip_value : (v : Bytes) → IsStorable v → g.strchomp (g.strchug (32 ∷ (v ++ (b'\n' ∷ [])))) ≡ v
  strip_value [] h = rw (
    g.strchug_cons 32 (b'\n' ∷ []),
    g.space_is_space,
    g.strchug_cons b'\n' [],
    g.newline_is_space,
    g.strchug_nil,
    g.strchomp_nil,
  )
  strip_value (c ∷ v) h =
      rw
        (
          g.strchug_cons 32 (c ∷ (v ++ (b'\n' ∷ []))),
          g.space_is_space,
          g.strchug_cons c (v ++ (b'\n' ∷ [])),
          graph_is_no_space c h.chugged,
          g.strchomp_snoc (c ∷ v) b'\n',
          g.newline_is_space,
        )
        h.chomped

  chomp_key : (c : ℕ) → 32 < c → g.strchomp (c ∷ 32 ∷ []) ≡ c ∷ []
  chomp_key c h =
      rw
        (g.strchomp_snoc (c ∷ []) 32, g.space_is_space, g.strchomp_snoc [] c, graph_is_no_space c h)

  nonzero : (c : ℕ) → 0 < c → c ≢ 0
  nonzero c h = ground arith

  no_newline : (c : ℕ) → 10 < c → c ≢ b'\n'
  no_newline c h = ground arith

  key_value-field :
      (c : ℕ) (v : Bytes)
      → 64 < c
      → IsStorable v
      → key_value g (c ∷ 32 ∷ b'=' ∷ 32 ∷ (v ++ (b'\n' ∷ []))) ≡ some (c ∷ [], v)
  unfolding key_value split_equals
  key_value-field c v h store =
      let e1 : (c == b'#') ≡ false = ground arith in
      let e2 : (c == b'=') ≡ false = ground arith in
      rw (key_value, e1, e2, split_equals, chomp_key c (omega arith), strip_value v store)

  journal_line-field :
      (c : ℕ) (v : Bytes) (r : Reader)
      → 64 < c
      → IsStorable v
      → journal_line g (journal_write_string c (some v)) r ≡ set_field g (c ∷ []) v r
  unfolding journal_line journal_write_string
  journal_line-field c v r h store = rw (
    journal_write_string,
    journal_line,
    c_string-line (c ∷ 32 ∷ b'=' ∷ 32 ∷ v) (
      nonzero c (omega arith),
      (
        nonzero 32 (omega arith),
        (nonzero b'=' (omega arith), (nonzero 32 (omega arith), store.no_zero)),
      ),
    ),
    g.strchug_cons c (32 ∷ b'=' ∷ 32 ∷ (v ++ (b'\n' ∷ []))),
    graph_is_no_space c (omega arith),
    key_value-field c v h store,
  )

  -- A field at the front of the text sets its value.
  pub read_text-field :
      (c : ℕ) (v rest : Bytes) (r : Reader)
      → 64 < c
      → IsStorable v
      → read_text g (journal_write_string c (some v) ++ rest) r
        ≡ read_text g rest (set_field g (c ∷ []) v r)
  unfolding journal_lines journal_write_string
  read_text-field c v rest r h store =
      let body : Bytes = c ∷ 32 ∷ b'=' ∷ 32 ∷ v in
      let whole : journal_write_string c (some v) ++ rest ≡ body ++ (b'\n' ∷ rest) =
        append_assoc body (b'\n' ∷ []) rest in
      let line : fgets_lines 1022 (body ++ (b'\n' ∷ rest))
          ≡ (body ++ (b'\n' ∷ [])) ∷ fgets_lines 1022 rest =
        fgets_lines-line body rest 1022 (omega (arith, store.short)) (
          no_newline c (omega arith),
          (
            no_newline 32 (omega arith),
            (no_newline b'=' (omega arith), (no_newline 32 (omega arith), store.no_newline)),
          ),
        ) in
      ap (λ (t : Bytes). read_text g t r) whole
      ∙ ap (λ (ls : List Bytes). journal_lines g ls r) line
      ∙ ap (λ (r' : Reader). journal_lines g (fgets_lines 1022 rest) r')
          (journal_line-field c v r h store)

  -- The empty line behind a record is skipped.
  pub read_text-blank :
      (rest : Bytes) (r : Reader) → read_text g (b'\n' ∷ rest) r ≡ read_text g rest r
  unfolding journal_lines fgets_lines journal_line key_value c_string
  read_text-blank rest r =
      rw (journal_lines, journal_line, g.strchug_cons b'\n' [], g.newline_is_space, g.strchug_nil)

  -- A value of one character.
  pub letter-IsStorable : (c : ℕ) → 32 < c → IsStorable (c ∷ [])
  letter-IsStorable c h = record {
    no_newline = (no_newline c (omega arith), tt);
    no_zero = (nonzero c (omega arith), tt);
    chugged = h;
    chomped = rw (g.strchomp_snoc [] c, graph_is_no_space c h) refl;
    short = omega arith;
  }
