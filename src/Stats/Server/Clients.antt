-- ===== src/Stats/Server/Clients.antt =====
-- The table of clients of stats-server.c.
use mpdcron.Prelude.{
  ℕ, suc, ◌≤◌, ◌<◌, ◌≡◌, ◌≢◌, refl, sym, subst, ◌++◌, Bool, true, false, Bool-cases, inl, inr,
  Option, none, some, List, [], ◌∷◌, All, length, leb, ◌==◌, ==_iff, if◌then◌else◌, arith,
}
use mpdcron.Stats.Command.{Permission}

-- struct client, whose streams are those of a connection `C`.
pub record Client (C : Type 0) : Type 0 where
  pub perm : Permission
  pub stream : C

-- The GHashTable `clients`, by the ids.
abbrev pub Clients : Type 0 → Type 0
Clients C = List (ℕ × Client C)

-- A connection that comes in, a flush that ended, and a read that ended with none or with a line, whose
-- command leaves the client with a permission.
pub data Event (C : Type 0) : Type 0 where
  incoming : C → Event C
  flushed : ℕ → Bool → Event C
  line_read : ℕ → Option Permission → Event C

module _ {C : Type 0} where
  unfoldable pub lookup : ℕ → Clients C → Option (Client C)
  lookup id [] = none
  lookup id ((i, c) ∷ t) = let rest = lookup id t in if i == id then some c else rest

  unfoldable pub remove : ℕ → Clients C → Clients C
  remove id [] = []
  remove id ((i, c) ∷ t) = let rest = remove id t in if i == id then rest else (i, c) ∷ rest

  -- g_hash_table_insert destroys the client that the id had.
  unfoldable pub insert : ℕ → Client C → Clients C → Clients C
  unfolding remove
  insert id c t = (id, c) ∷ remove id t

  -- max_connections and default_permissions are of globalconf.
  unfoldable pub event_incoming : ℕ → Permission → C → Clients C → Clients C
  unfolding insert
  event_incoming max_connections perm stream t =
      if leb max_connections (length t)
      then t
      else insert (length t) (record { perm = perm; stream = stream }) t

  -- client->perm after a command.
  unfoldable pub grant : ℕ → Permission → Clients C → Clients C
  grant id perm [] = []
  grant id perm ((i, c) ∷ t) =
      (i, if i == id then record c { perm = perm } else c) ∷ grant id perm t

  -- A client that is not there any more is left alone; one whose flush failed is removed.
  unfoldable pub event_flush : ℕ → Bool → Clients C → Clients C
  unfolding lookup remove
  event_flush id worked t =
      let without = remove id t in
      elim (lookup id t) [ none ↦ t | some c ↦ if worked then t else without ]

  -- Likewise one that disconnected or whose read failed; serve_line is the command of a line.
  unfoldable pub event_read : ℕ → Option Permission → Clients C → Clients C
  unfolding lookup remove grant
  event_read id outcome t =
      let without = remove id t in
      elim (lookup id t) [
        | none ↦ t
        | some c ↦ elim outcome [ none ↦ without | some perm ↦ grant id perm t ]
      ]

  unfoldable pub handle : ℕ → Permission → Event C → Clients C → Clients C
  unfolding event_incoming event_flush event_read
  handle max_connections perm (incoming stream) t = event_incoming max_connections perm stream t
  handle max_connections perm (flushed id worked) t = event_flush id worked t
  handle max_connections perm (line_read id outcome) t = event_read id outcome t

  unfoldable pub handle_all : ℕ → Permission → List (Event C) → Clients C → Clients C
  unfolding handle
  handle_all max_connections perm [] t = t
  handle_all max_connections perm (e ∷ es) t =
      handle_all max_connections perm es (handle max_connections perm e t)

  abbrev IsAbsent : ℕ → Clients C → Type 0
  IsAbsent id = All λ p. p.0 ≢ id

  -- The ids are different and below the limit, and there are no more clients than that.
  abbrev Distinct : Clients C → Type 0
  Distinct [] = Unit
  Distinct ((i, c) ∷ t) = IsAbsent i t × Distinct t

  abbrev pub IsSound : ℕ → Clients C → Type 0
  IsSound max_connections t =
      Distinct t × (All (λ p. p.0 < max_connections) t × (length t ≤ max_connections))

  remove-All : (P : ℕ × Client C → Type 0) (id : ℕ) (t : Clients C) → All P t → All P (remove id t)
  unfolding remove
  remove-All P id [] h = tt
  remove-All P id ((i, c) ∷ t) h = elim (Bool-cases (i == id)) [
    | inl same ↦ rw (same, remove) (remove-All P id t h.1)
    | inr other ↦ rw (other, remove) (h.0, remove-All P id t h.1)
  ]

  remove-Distinct : (id : ℕ) (t : Clients C) → Distinct t → Distinct (remove id t)
  unfolding remove
  remove-Distinct id [] h = tt
  remove-Distinct id ((i, c) ∷ t) h = elim (Bool-cases (i == id)) [
    | inl same ↦ rw (same, remove) (remove-Distinct id t h.1)
    | inr other ↦ rw (other, remove) (remove-All (λ p. p.0 ≢ i) id t h.0, remove-Distinct id t h.1)
  ]

  remove-IsAbsent : (id : ℕ) (t : Clients C) → IsAbsent id (remove id t)
  unfolding remove
  remove-IsAbsent id [] = tt
  remove-IsAbsent id ((i, c) ∷ t) = elim (Bool-cases (i == id)) [
    | inl same ↦ rw (same, remove) (remove-IsAbsent id t)
    | inr other ↦
        rw (other, remove) ((λ e. absurd (ground (arith, other, e))), remove-IsAbsent id t)
  ]

  length-remove_le : (id : ℕ) (t : Clients C) → length (remove id t) ≤ length t
  unfolding remove
  length-remove_le id [] = omega arith
  length-remove_le id ((i, c) ∷ t) = elim (Bool-cases (i == id)) [
    | inl same ↦ rw (same, remove) (omega (arith, length-remove_le id t))
    | inr other ↦ rw (other, remove) (omega (arith, length-remove_le id t))
  ]

  remove-IsSound : (m id : ℕ) (t : Clients C) → IsSound m t → IsSound m (remove id t)
  remove-IsSound m id t h = (
    remove-Distinct id t h.0,
    (remove-All (λ p. p.0 < m) id t h.1.0, omega (arith, length-remove_le id t, h.1.1)),
  )

  flush-IsSound :
      (m id : ℕ) (worked : Bool) (t : Clients C) → IsSound m t → IsSound m (event_flush id worked t)
  unfolding event_flush
  flush-IsSound m id worked t h =
      elim (lookup id t)
        as (λ o. IsSound m (elim o [ none ↦ t | some c ↦ if worked then t else remove id t ])) [
          | none ↦ h
          | some c ↦ elim worked as (λ w. IsSound m (if w then t else remove id t)) [
            | true ↦ h
            | false ↦ remove-IsSound m id t h
          ]
        ]

  grant-All :
      (P : ℕ → Type 0) (id : ℕ) (perm : Permission) (t : Clients C)
      → All (λ p. P p.0) t
      → All (λ p. P p.0) (grant id perm t)
  unfolding grant
  grant-All P id perm [] h = tt
  grant-All P id perm ((i, c) ∷ t) h = (h.0, grant-All P id perm t h.1)

  grant-Distinct :
      (id : ℕ) (perm : Permission) (t : Clients C) → Distinct t → Distinct (grant id perm t)
  unfolding grant
  grant-Distinct id perm [] h = tt
  grant-Distinct id perm ((i, c) ∷ t) h =
      (grant-All (λ n. n ≢ i) id perm t h.0, grant-Distinct id perm t h.1)

  length-grant : (id : ℕ) (perm : Permission) (t : Clients C) → length (grant id perm t) ≡ length t
  unfolding grant
  length-grant id perm [] = refl
  length-grant id perm ((i, c) ∷ t) = omega (arith, length-grant id perm t)

  grant-IsSound :
      (m id : ℕ) (perm : Permission) (t : Clients C) → IsSound m t → IsSound m (grant id perm t)
  grant-IsSound m id perm t h = (
    grant-Distinct id perm t h.0,
    (grant-All (λ n. n < m) id perm t h.1.0, omega (arith, length-grant id perm t, h.1.1)),
  )

  read-IsSound :
      (m id : ℕ) (outcome : Option Permission) (t : Clients C)
      → IsSound m t
      → IsSound m (event_read id outcome t)
  unfolding event_read
  read-IsSound m id none t h =
      elim (lookup id t) as (λ o. IsSound m (elim o [ none ↦ t | some c ↦ remove id t ])) [
        | none ↦ h
        | some c ↦ remove-IsSound m id t h
      ]
  read-IsSound m id (some perm) t h =
      elim (lookup id t) as (λ o. IsSound m (elim o [ none ↦ t | some c ↦ grant id perm t ])) [
        | none ↦ h
        | some c ↦ grant-IsSound m id perm t h
      ]

  incoming-IsSound :
      (m : ℕ) (perm : Permission) (stream : C) (t : Clients C)
      → IsSound m t
      → IsSound m (event_incoming m perm stream t)
  unfolding event_incoming insert
  incoming-IsSound m perm stream t h = elim (Bool-cases (leb m (length t))) [
    | inl full ↦ rw (full, event_incoming) h
    | inr room ↦
        rw (room, event_incoming)
          (
            (remove-IsAbsent (length t) t, remove-Distinct (length t) t h.0),
            (
              (ground (arith, room), remove-All (λ p. p.0 < m) (length t) t h.1.0),
              ground (arith, room, length-remove_le (length t) t),
            ),
          )
  ]

  handle_all-keeps :
      (m : ℕ) (perm : Permission) (es : List (Event C)) (t : Clients C)
      → IsSound m t
      → IsSound m (handle_all m perm es t)
  unfolding handle_all handle
  handle_all-keeps m perm [] t h = h
  handle_all-keeps m perm (incoming stream ∷ es) t h =
      handle_all-keeps m perm es _ (incoming-IsSound m perm stream t h)
  handle_all-keeps m perm (flushed id worked ∷ es) t h =
      handle_all-keeps m perm es _ (flush-IsSound m id worked t h)
  handle_all-keeps m perm (line_read id outcome ∷ es) t h =
      handle_all-keeps m perm es _ (read-IsSound m id outcome t h)

  handle_all-IsSound :
      (max_connections : ℕ) (perm : Permission) (es : List (Event C))
      → IsSound max_connections (handle_all max_connections perm es [])
  handle_all-IsSound max_connections perm es =
      handle_all-keeps max_connections perm es [] (tt, (tt, omega arith))

  length-remove_absent : (id : ℕ) (t : Clients C) → IsAbsent id t → length (remove id t) ≡ length t
  unfolding remove
  length-remove_absent id [] h = refl
  length-remove_absent id ((i, c) ∷ t) h = elim (Bool-cases (i == id)) [
    | inl same ↦ absurd (h.0 ((==_iff i id).0 same))
    | inr other ↦ rw (other, remove) (omega (arith, length-remove_absent id t h.1))
  ]

  length-remove_present :
      (id : ℕ) (t : Clients C) (c : Client C)
      → Distinct t
      → lookup id t ≡ some c
      → suc (length (remove id t)) ≡ length t
  unfolding remove lookup
  length-remove_present id [] c h here = absurd (ground (arith, here))
  length-remove_present id ((i, d) ∷ t) c h here = elim (Bool-cases (i == id)) [
    | inl same ↦
        rw (same, remove)
          (omega (
            arith,
            length-remove_absent id t (subst (λ n. IsAbsent n t) ((==_iff i id).0 same) h.0),
          ))
    | inr other ↦
        rw (other, remove)
          (omega (arith, length-remove_present id t c h.1 (ground (arith, here, other))))
  ]

  event_incoming-replaces :
      (max_connections : ℕ) (perm : Permission) (stream : C) (t : Clients C) (old : Client C)
      → IsSound max_connections t
      → length t < max_connections
      → lookup (length t) t ≡ some old
      → (length (event_incoming max_connections perm stream t) ≡ length t)
        × (lookup (length t) (event_incoming max_connections perm stream t)
            ≡ some (record { perm = perm; stream = stream }))
  unfolding event_incoming insert lookup
  event_incoming-replaces m perm stream t old sound room here =
      let open_room : leb m (length t) ≡ false = ground arith in
      let same : (length t == length t) ≡ true = (==_iff (length t) (length t)).1 refl in
      rw (open_room, same, event_incoming, lookup)
        (length-remove_present (length t) t old sound.0 here, refl)

  handle_all-append :
      (m : ℕ) (perm : Permission) (es : List (Event C)) (stream : C) (t : Clients C)
      → handle_all m perm (es ++ (incoming stream ∷ [])) t
        ≡ event_incoming m perm stream (handle_all m perm es t)
  unfolding handle_all handle
  handle_all-append m perm [] stream t = refl
  handle_all-append m perm (e ∷ es) stream t =
      handle_all-append m perm es stream (handle m perm e t)

  -- Whatever connections came in and ended, if fewer clients than the limit are connected and the
  -- number of them is the id of one of them, then a new connection takes the place of that client:
  -- the number stays, and that id belongs to the new connection; the ids are different and below
  -- the limit, and the clients are not more than it.
  pub handle_all-replaces :
      (max_connections : ℕ) (perm : Permission) (es : List (Event C)) (stream : C) (old : Client C)
      → length (handle_all max_connections perm es []) < max_connections
      → lookup
          (length (handle_all max_connections perm es []))
          (handle_all max_connections perm es [])
        ≡ some old
      → IsSound max_connections (handle_all max_connections perm (es ++ (incoming stream ∷ [])) [])
        × ((length (handle_all max_connections perm (es ++ (incoming stream ∷ [])) [])
              ≡ length (handle_all max_connections perm es []))
            × (lookup
                  (length (handle_all max_connections perm es []))
                  (handle_all max_connections perm (es ++ (incoming stream ∷ [])) [])
                ≡ some (record { perm = perm; stream = stream })))
  handle_all-replaces m perm es stream old room here =
      let before = handle_all m perm es [] in
      let last = handle_all-append m perm es stream [] in
      (
        handle_all-IsSound m perm (es ++ (incoming stream ∷ [])),
        subst
            (λ (t : Clients C).
              (length t ≡ length before)
              × (lookup (length before) t ≡ some (record { perm = perm; stream = stream })))
            (sym last)
            (event_incoming-replaces m perm stream before old (handle_all-IsSound m perm es) room
              here),
      )
