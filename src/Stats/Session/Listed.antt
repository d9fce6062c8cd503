-- ===== src/Stats/Session/Listed.antt =====
-- A list from the database to the client.
use mpdcron.Prelude.{
  ◌≡◌, refl, ap, sym, ◌∙◌, Bytes, true, Option, none, some, List, [], ◌∷◌, ◌++◌, map, All, arith,
}
use mathlib.Core.List.{append_assoc, append-nil}
use mpdcron.Stats.Tokenizer.{Ascii}
use mpdcron.Stats.Protocol.{send_commandv}
use mpdcron.Stats.Database.{Sqlite, Row, rows, prepend_rows, selected}
use mpdcron.Stats.Database.Tags.{Split}
use mpdcron.Stats.Database.Select.{GenericData}
use mpdcron.Stats.Command.{permission_select}
use mpdcron.Stats.Command.RoundTrip.{command_process-send_commandv}
use mpdcron.Stats.Server.{Server, served, return_ok, Host, command_puts, command_ok}
use mpdcron.Stats.Server.Lists.{put_lines, put_values, answer_values}
use mpdcron.Stats.Client.{LineReader, Entity, Received, received, new_entity, parse_values}
use mpdcron.Stats.Client.Calls.{exchange, read_reply}
use mpdcron.Stats.Server.Serve.{released, perform, serve_line}
use mpdcron.Stats.Session.{server_peer, event_read_line, after_line, answer}
use mpdcron.Stats.Session.Exchange.{IsLine, send_commandv-IsLine, lines-line}
use mpdcron.Stats.Session.Dispatch.{dispatch-permitted, is_name-IsWord, is_name-IsFree}
use mpdcron.Stats.Session.Listing.{
  HasInts, Listing, field_of, lines_of, entity_of, all_lines, onto, parse_values-all_lines,
}
use mpdcron.Stats.Session.Lists.{
  listed, value_of, IsShowable, flat, lines-flat, flat-append, all_lines-IsLine, rows-Show,
}
use mpdcron.Stats.Session.Rows.{Stored, AreRows, IsListable, client_view, selection}
use mpdcron.Stats.Session.Handlers.{Lists, listed-Lists}

module _ {D : Type 0} where
  put_lines-flat :
      (ls : List Bytes) (s : Server D) → put_lines ls s ≡ record s { output = s.output ++ flat ls }
  unfolding put_lines command_puts flat
  put_lines-flat [] s = ap (λ (o : Bytes). record s { output = o }) (sym (append-nil s.output))
  put_lines-flat (line ∷ lines) s =
      put_lines-flat lines (command_puts line s)
      ∙ ap (λ (o : Bytes). record s { output = o })
          (append_assoc s.output (line ++ (b'\n' ∷ [])) (flat lines)
            ∙ ap (λ (o : Bytes). s.output ++ o) (append_assoc line (b'\n' ∷ []) (flat lines)))

  put_values-flat :
      (l : Listing) (xs : List GenericData) (s : Server D)
      → put_values (λ x. some (lines_of l x)) xs s
        ≡ served return_ok (record s { output = s.output ++ flat (all_lines l xs) })
  unfolding put_values command_ok flat
  put_values-flat l [] s = refl
  put_values-flat l (x ∷ xs) s =
      ap (put_values (λ y. some (lines_of l y)) xs) (put_lines-flat (lines_of l x) s)
      ∙ put_values-flat l xs (record s { output = s.output ++ flat (lines_of l x) })
      ∙ ap (λ (o : Bytes). served return_ok (record s { output = o }))
          (append_assoc s.output (flat (lines_of l x)) (flat (all_lines l xs))
            ∙ ap (λ (o : Bytes). s.output ++ o) (sym (flat-append (lines_of l x) (all_lines l xs))))

-- The order of the rows comes back: the server puts each in front of the others, and so does the client.
onto-prepend_rows :
    (l : Listing) (rs : List Row) (xs : List GenericData) (values : List Entity)
    → onto (map (entity_of l) (prepend_rows (value_of l) rs xs)) values
      ≡ onto (map (entity_of l) xs) (map (λ row. entity_of l (value_of l row)) rs ++ values)
unfolding prepend_rows
onto-prepend_rows l [] xs values = refl
onto-prepend_rows l (row ∷ rs) xs values = onto-prepend_rows l rs (value_of l row ∷ xs) values

prepend_rows-All :
    (P : GenericData → Type 0) (l : Listing) (rs : List Row) (xs : List GenericData)
    → All (λ row. P (value_of l row)) rs
    → All P xs
    → All P (prepend_rows (value_of l) rs xs)
unfolding prepend_rows
prepend_rows-All P l [] xs h k = k
prepend_rows-All P l (row ∷ rs) xs h k = prepend_rows-All P l rs (value_of l row ∷ xs) h.1 (h.0, k)

showable-HasInts :
    (l : Listing) (rs : List Row)
    → All (λ row. IsShowable (value_of l row)) rs
    → All (λ row. HasInts (value_of l row)) rs
showable-HasInts l [] h = tt
showable-HasInts l (row ∷ rs) h = (h.0.1.1, showable-HasInts l rs h.1)

module _ (a : Ascii) (r : LineReader) {D : Type 0} (q : Sqlite D) (g : Split) (h : Host) where
  -- The state behind a list.
  abbrev listing_end : Listing → List GenericData → D → Server D → Server D
  listing_end l values d s = record s {
    database = d;
    output = flat (all_lines l values);
    current_command = none;
  }

  module _ (l : Listing) (expr : Bytes) (s : Server D) (rs : List Row) (d : D)
      (may : s.permission.select ≡ true) (one_line : IsLine expr)
      (select_rows : q.select (selection l expr) s.database ≡ (rows rs, d))
      (x : Lists a r q g h l expr) where
    abbrev values : List GenericData
    values = prepend_rows (value_of l) rs []

    serve_line-list :
        serve_line q g h a true true (send_commandv x.name (expr ∷ [])) (record s { output = [] })
        ≡ served return_ok (listing_end l values d s)
    unfolding serve_line perform released selected answer_values
    serve_line-list =
        let asking = record s { output = []; current_command = some x.command.cmd } in
        ap (λ p. perform q g h true p (record s { output = [] }))
          (command_process-send_commandv a true s.permission x.name (expr ∷ [])
              (is_name-IsWord a x.name x.word) (omega arith)
            ∙ dispatch-permitted a r q g h s.permission permission_select x.name (expr ∷ [])
                x.command (ground (arith, may)) refl x.here x.permission x.passes)
        ∙ ap (released q g h true) (
            x.handles asking
            ∙ ap
                (λ found_rows.
                  answer_values (λ y. some (lines_of l y)) (selected q (value_of l) found_rows)
                    asking)
                select_rows
            ∙ put_values-flat l values (record asking { database = d }))

    server_peer-list :
        All (λ row. IsShowable (value_of l row)) rs
        → server_peer a r q g h (send_commandv x.name (expr ∷ [])) s
          ≡ (some (all_lines l values), listing_end l values d s)
    unfolding server_peer event_read_line after_line answer
    server_peer-list showable =
        ap
          (λ ls.
            answer a r q g h (record s { output = [] })
              (event_read_line a r q g h ls (record s { output = [] })))
          (lines-line r (send_commandv x.name (expr ∷ [])) (
            send_commandv-IsLine x.name (expr ∷ []) (is_name-IsFree b'\n' x.name refl x.word)
              (one_line, tt)))
        ∙ ap
            (λ x.
              answer a r q g h (record s { output = [] })
                (after_line a r q g h (event_read_line a r q g h []) x))
            serve_line-list
        ∙ ap (λ (ls : List Bytes). (some ls, listing_end l values d s))
            (lines-flat r (all_lines l values)
              (all_lines-IsLine l values (prepend_rows-All IsShowable l rs [] showable tt)))

    exchange-list :
        All (λ row. IsShowable (value_of l row)) rs
        → listed (server_peer a r q g h) l expr s
          ≡ (received (map (λ row. entity_of l (value_of l row)) rs) [], listing_end l values d s)
    unfolding exchange
    exchange-list showable =
        x.requests s
        ∙ ap
            (λ (p : Option (List Bytes) × Server D).
              (read_reply p.0 (parse_values new_entity (field_of l) none []), p.1))
            (server_peer-list showable)
        ∙ ap (λ (y : Received (List Entity)). (y, listing_end l values d s))
            (parse_values-all_lines l values none []
                (prepend_rows-All HasInts l rs [] (showable-HasInts l rs showable) tt)
              ∙ ap (λ (es : List Entity). received es [])
                  (onto-prepend_rows l rs [] []
                    ∙ append-nil (map (λ row. entity_of l (value_of l row)) rs)))

  -- A client that may select and asks, by list or listinfo, for artists, albums or genres, where
  -- the select of the columns of that list finds rows which have the values of stored records under
  -- those columns, gets those records in their order, each value in the field of its name, with
  -- null texts shown as "(null)", and the database is in the state that the select leaves; the
  -- expression is one line, the texts of the records are one line each and their numbers are ints.
  pub listed-rows :
      (l : Listing) (expr : Bytes) (s : Server D) (xs : List Stored) (rs : List Row) (d : D)
      → s.permission.select ≡ true
      → IsLine expr
      → q.select (selection l expr) s.database ≡ (rows rs, d)
      → AreRows l xs rs
      → All IsListable xs
      → ((listed (server_peer a r q g h) l expr s).0 ≡ received (map (client_view l) xs) [])
        × ((listed (server_peer a r q g h) l expr s).1.database ≡ d)
  listed-rows l expr s xs rs d may one_line select_rows are_rows sendable =
      let (showable, same) = rows-Show l xs rs are_rows sendable in
      let answered =
        exchange-list l expr s rs d may one_line select_rows (listed-Lists a r q g h l expr)
          showable in
      (
        ap (λ (p : Received (List Entity) × Server D). p.0) answered
            ∙ ap (λ (es : List Entity). received es []) same,
        ap (λ (p : Received (List Entity) × Server D). p.1.database) answered,
      )
