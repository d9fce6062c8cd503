-- ===== src/Stats/Command/Lookup.antt =====
-- The binary search of the command table, which is not quite sorted.
use mpdcron.Prelude.{
  ℕ, zero, suc, ◌+◌, ◌-◌, ◌/◌, ◌≤◌, ◌<◌, ◌≡◌, refl, ◌⊎◌, inl, inr, Bytes, codes, bytes_eq, Bool,
  ◌||◌, Bool-cases, some, List, [], ◌∷◌, All, length, arith, ltb, if◌then◌else◌,
}
use mpdcron.Stats.Command.{
  Command, Compared, less, equal, greater, strcmp, get_elem?, Found, fault, no_fuel, not_found,
  found, search_between,
}
use mpdcron.Stats.Command.Table.{commands, command_lookup}

strcmp-equal : (s t : Bytes) → strcmp s t ≡ equal → s ≡ t
unfolding strcmp
strcmp-equal [] [] h = refl
strcmp-equal [] (d ∷ t) h = cc
strcmp-equal (c ∷ s) [] h = cc
strcmp-equal (c ∷ s) (d ∷ t) h = ground (arith, strcmp-equal s t)

-- The three commands that the table has behind a greater name.
abbrev pub is_misplaced : Bytes → Bool
is_misplaced name =
    bytes_eq name (codes "rate_album")
    || bytes_eq name (codes "rate_artist")
    || bytes_eq name (codes "rate_genre")

-- Every command of the table is found by its name, but rate_album, rate_artist and rate_genre,
-- which are not found.
pub command_lookup-exact :
    All (λ c. command_lookup c.cmd ≡ (if is_misplaced c.cmd then not_found else found c)) commands
unfolding command_lookup bytes_eq
command_lookup-exact = assumption refl

get_elem?-some :
    {A : Type 0} (xs : List A) (n : ℕ) → n < length xs → (x : A) × (get_elem? xs n ≡ some x)
unfolding get_elem?
get_elem?-some [] n h = absurd (omega arith)
get_elem?-some (x ∷ xs) zero h = (x, refl)
get_elem?-some (x ∷ xs) (suc n) h = get_elem?-some xs n (omega arith)

-- A round that stops, or that goes on below or above.
module _ (fuel : ℕ) (table : List Command) (name : Bytes) (a b : ℕ) (c : Command)
    (here : get_elem? table ((a + b) / 2) ≡ some c) where
  abbrev middle : ℕ
  middle = (a + b) / 2

  round-equal : strcmp name c.cmd ≡ equal → search_between (suc fuel) table name a b ≡ found c
  unfolding search_between
  round-equal h = rw (here, h, search_between)

  round-less :
      strcmp name c.cmd ≡ less
      → search_between (suc fuel) table name a b
        ≡ (if ltb a middle then search_between fuel table name a middle else not_found)
  unfolding search_between
  round-less h = rw (here, h, search_between)

  round-greater :
      strcmp name c.cmd ≡ greater
      → search_between (suc fuel) table name a b
        ≡ (if ltb (middle + 1) b then search_between fuel table name (middle + 1) b else not_found)
  unfolding search_between
  round-greater h = rw (here, h, search_between)

Compared-cases : (c : Compared) → (c ≡ equal) ⊎ ((c ≡ less) ⊎ (c ≡ greater))
Compared-cases equal = inl refl
Compared-cases less = inr (inl refl)
Compared-cases greater = inr (inr refl)

-- The name is not there, or a command of that name was found.
abbrev pub Settles : List Command → Bytes → Found → Type 0
Settles table name fault = ⊥
Settles table name no_fuel = ⊥
Settles table name not_found = Unit
Settles table name (found c) = (name ≡ c.cmd) × ((i : ℕ) × (get_elem? table i ≡ some c))

-- In any table, sorted or not, the search ends within it, and finds only a command of the name.
pub search_between-Settles :
    (fuel : ℕ) (table : List Command) (name : Bytes) (a b : ℕ)
    → a < b
    → b ≤ length table
    → b - a ≤ fuel
    → Settles table name (search_between fuel table name a b)
search_between-Settles zero table name a b lt le enough = absurd (omega arith)
search_between-Settles (suc fuel) table name a b lt le enough =
    let (c, here) = get_elem?-some table ((a + b) / 2) (omega arith) in
    elim (Compared-cases (strcmp name c.cmd)) [
      | inl same ↦
          rw (round-equal fuel table name a b c here same)
            (strcmp-equal name c.cmd same, ((a + b) / 2, here))
      | inr (inl below) ↦
          rw (round-less fuel table name a b c here below)
            (elim (Bool-cases (ltb a ((a + b) / 2))) [
              | inl more ↦ rw more (
                  search_between-Settles fuel table name a ((a + b) / 2) (ground arith)
                    (omega arith) (omega arith))
              | inr done ↦ rw done tt
            ])
      | inr (inr above) ↦
          rw (round-greater fuel table name a b c here above)
            (elim (Bool-cases (ltb ((a + b) / 2 + 1) b)) [
              | inl more ↦ rw more (
                  search_between-Settles fuel table name ((a + b) / 2 + 1) b (ground arith)
                    (omega arith) (omega arith))
              | inr done ↦ rw done tt
            ])
    ]

-- Looking up any name ends within 50 rounds without a read past the table, and what is found is a
-- command of the table with that name.
pub command_lookup-Settles : (name : Bytes) → Settles commands name (command_lookup name)
unfolding command_lookup
command_lookup-Settles name =
    search_between-Settles 50 commands name 0 50 (omega arith) (omega arith) (omega arith)
