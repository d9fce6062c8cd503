-- ===== src/Scrobbler/Player/Events.antt =====
-- What a player event submits and announces.
use mpdcron.Prelude.{
  ◌≡◌, refl, ap, sym, ◌∙◌, Bytes, true, false, none, some, List, [], ◌∷◌, ◌++◌, Bool, All, subst,
  some_inj, if◌then◌else◌, is_some, is_empty, not, ◌&&◌, ltb, Bool-cases, Option-cases, Option, inl,
  inr, arith, ℕ,
}
use mpdcron.Modules.{EventReturn, success, unload}
use mpdcron.Scrobbler.Record.{record_is_defined}
use mpdcron.Scrobbler.Player.{
  Song, Call, submit, timer_stop, Player, Reading, PlayerState, play, pause, stopped, song_changed,
  song_ended, song_plays, song_repeated, played_long_enough, song_playing, as_songchange,
  as_now_playing, song_check_tags, is_given, event_player, not_paused, kept, previous_ended,
  continued, is_over, is_new, titles_differ, has_id,
}

-- A record that is put into a queue has an artist, a title, and a time.
abbrev pub IsSubmittable : Call → Type 0
IsSubmittable (submit r) =
    (record_is_defined r ≡ true) × (is_some r.time ≡ true) × (is_some r.source ≡ true)
IsSubmittable _ = Unit

All-append :
    (xs ys : List Call) → All IsSubmittable xs → All IsSubmittable ys → All IsSubmittable (xs ++ ys)
All-append [] ys h k = k
All-append (x ∷ xs) ys h k = (h.0, All-append xs ys h.1 k)

as_songchange-IsSubmittable :
    (now : Bytes) (artist track : Option Bytes) (length : ℕ) (song : Song)
    → All IsSubmittable (as_songchange now artist track length song)
unfolding as_songchange is_given
as_songchange-IsSubmittable now none track length song = tt
as_songchange-IsSubmittable now (some a) none length song = elim (Bool-cases (is_empty a)) [
  | inl empty ↦ rw (as_songchange, empty) tt
  | inr given ↦ rw (as_songchange, given) tt
]
as_songchange-IsSubmittable now (some a) (some b) length song =
    elim (Bool-cases (not (is_empty a) && not (is_empty b))) [
      | inl given ↦ rw (as_songchange, given) ((refl, refl, refl), tt)
      | inr empty ↦ rw (as_songchange, empty) tt
    ]

song_changed-IsSubmittable : (song : Song) → All IsSubmittable (song_changed song)
unfolding song_changed as_now_playing
song_changed-IsSubmittable song = elim (Option-cases (song_check_tags song)) [
  | inl missing ↦ rw (missing, song_changed) (tt, tt)
  | inr (tags, given) ↦ rw (given, song_changed) (tt, (tt, tt))
]

song_ended-IsSubmittable : (t : Reading) (song : Song) → All IsSubmittable (song_ended t song)
unfolding song_ended
song_ended-IsSubmittable t song = elim (Option-cases (song_check_tags song)) [
  | inl missing ↦ rw (missing, song_ended) tt
  | inr ((artist, title), given) ↦
      elim (Bool-cases (played_long_enough t.timer_elapsed song.duration)) [
        | inl long ↦
            rw (given, long, song_ended)
              (as_songchange-IsSubmittable t.now artist title
                (if ltb 0 song.duration then song.duration else t.timer_elapsed) song)
        | inr short ↦ rw (given, short, song_ended) tt
      ]
]

song_plays-IsSubmittable :
    (t : Reading) (song : Option Song) (p : Player) → All IsSubmittable (song_plays t song p).1
unfolding song_plays song_playing
song_plays-IsSubmittable t none p = tt
song_plays-IsSubmittable t (some song) p = elim (Bool-cases (is_new p song)) [
  | inl new ↦ rw (new, song_plays) (song_changed-IsSubmittable song)
  | inr old ↦ elim (Bool-cases (song_repeated song t.elapsed_time t.timer_elapsed)) [
    | inl again ↦
        rw (old, again, song_plays, song_playing)
          (All-append (song_ended t song) (song_changed song) (song_ended-IsSubmittable t song)
            (song_changed-IsSubmittable song))
    | inr on ↦ rw (old, on, song_plays, song_playing) tt
  ]
]

previous_ended-IsSubmittable :
    (t : Reading) (song : Option Song) (p : Player) → All IsSubmittable (previous_ended t song p)
unfolding previous_ended
previous_ended-IsSubmittable t song p = elim (Option-cases p.prev) [
  | inl missing ↦ rw (missing, previous_ended) tt
  | inr (prev, given) ↦ elim (Bool-cases (is_over p prev song)) [
    | inl over ↦ rw (given, over, previous_ended) (song_ended-IsSubmittable t prev)
    | inr on ↦ rw (given, on, previous_ended) tt
  ]
]

continued-IsSubmittable : (song : Option Song) (p : Player) → All IsSubmittable (continued song p)
unfolding continued
continued-IsSubmittable none p = tt
continued-IsSubmittable (some song) p =
    elim (Bool-cases (p.was_paused && has_id p.last_id song.id)) [
      | inl back ↦ rw (back, continued) (tt, tt)
      | inr other ↦ rw (other, continued) tt
    ]

not_paused-IsSubmittable :
    (t : Reading) (song : Option Song) (p : Player) → All IsSubmittable (not_paused t song p).1
unfolding not_paused
not_paused-IsSubmittable t song p =
    let q = record p { was_paused = false } in
    All-append (continued song p) (previous_ended t song q ++ (song_plays t song q).1)
      (continued-IsSubmittable song p)
      (All-append (previous_ended t song q) (song_plays t song q).1
        (previous_ended-IsSubmittable t song q) (song_plays-IsSubmittable t song q))

kept-IsSubmittable :
    (t : Reading) (song : Option Song) (x : Player × List Call)
    → All IsSubmittable x.1
    → All IsSubmittable (kept t song x).1.1
unfolding kept
kept-IsSubmittable t none x h = h
kept-IsSubmittable t (some song) x h = h

paused-IsSubmittable :
    (already : Bool) → All IsSubmittable (if already then [] else timer_stop ∷ [])
paused-IsSubmittable true = tt
paused-IsSubmittable false = (tt, tt)

-- Whatever player event is handled, in any state, every record that is put into the queues has an
-- artist, a title, a time stamp and a source.
pub event_player-IsSubmittable :
    (s : PlayerState) (song : Option Song) (t : Reading) (p p' : Player) (r : EventReturn)
    (calls : List Call)
    → event_player s song t p ≡ some (r, (p', calls))
    → All IsSubmittable calls
unfolding event_player
event_player-IsSubmittable pause song t p p' r calls h =
    subst (λ (x : EventReturn × (Player × List Call)). All IsSubmittable x.1.1) (some_inj h)
      (paused-IsSubmittable p.was_paused)
event_player-IsSubmittable stopped song t p p' r calls h =
    subst (λ (x : EventReturn × (Player × List Call)). All IsSubmittable x.1.1) (some_inj h)
      (kept-IsSubmittable t song
        (not_paused t song (record p { last_id = none; was_paused = false }))
        (not_paused-IsSubmittable t song (record p { last_id = none; was_paused = false })))
event_player-IsSubmittable play none t p p' r calls h = cc
event_player-IsSubmittable play (some song) t p p' r calls h =
    subst (λ (x : EventReturn × (Player × List Call)). All IsSubmittable x.1.1) (some_inj h)
      (kept-IsSubmittable t (some song) (not_paused t (some song) p)
        (not_paused-IsSubmittable t (some song) p))

remote_over :
    (song prev : Song) (p : Player)
    → p.is_remote ≡ true
    → is_some song.title ≡ true
    → is_over p prev (some song) ≡ true
unfolding is_over titles_differ
remote_over song prev p remote titled = ground arith

remote_new :
    (song prev : Song) (p : Player)
    → p.is_remote ≡ true
    → p.prev ≡ some prev
    → is_some song.title ≡ true
    → is_new p song ≡ true
unfolding is_new titles_differ
remote_new song prev p remote before titled = rw (is_new, remote, before, titled) (ground arith)

song_plays-new :
    (t : Reading) (song : Song) (p : Player)
    → is_new p song ≡ true
    → song_plays t (some song) p
      ≡ (record p { last_id = some song.id; is_remote = song.remote }, song_changed song)
unfolding song_plays
song_plays-new t song p new = rw (new, song_plays)

-- A player event while a stream with a title plays, which was not paused and is not the first,
-- handles the previous song as ended and the song as new and restarts the timer, even if both are
-- the same song, and the module asks to be unloaded if mpd_song_dup fails.
pub event_player-remote :
    (t : Reading) (song prev : Song) (p : Player)
    → p.is_remote ≡ true
    → p.was_paused ≡ false
    → p.prev ≡ some prev
    → is_some song.title ≡ true
    → event_player play (some song) t p
      ≡ some (
        if t.is_duplicated then success else unload,
        (
          record p {
            last_id = some song.id;
            is_remote = song.remote;
            prev = if t.is_duplicated then some song else none;
          },
          song_ended t prev ++ song_changed song,
        ),
      )
unfolding event_player not_paused continued previous_ended kept
event_player-remote t song prev p remote playing before titled =
    let q = record p { was_paused = false } in
    let none_paused : continued (some song) p ≡ [] = rw (continued, playing) in
    let ended : previous_ended t (some song) q ≡ song_ended t prev =
      rw (previous_ended, before, remote_over song prev q remote titled) in
    let plays = song_plays t (some song) q in
    ap
      (λ (cs : List Call).
        some (kept t (some song) (plays.0, cs ++ (previous_ended t (some song) q ++ plays.1))))
      none_paused
    ∙ ap (λ (cs : List Call). some (kept t (some song) (plays.0, cs ++ plays.1))) ended
    ∙ ap (λ (x : Player × List Call). some (kept t (some song) (x.0, song_ended t prev ++ x.1)))
        (song_plays-new t song q (remote_new song prev q remote before titled))
    ∙ ap
        (λ (b : Bool). some (
          kept t (some song) (
            record p { was_paused = b; last_id = some song.id; is_remote = song.remote },
            song_ended t prev ++ song_changed song,
          )))
        (sym playing)
