-- ===== src/Ipc/Server/Lifecycle/Active.antt =====
-- A server counts the connections that it handles (pkg/ipc/server.go).
use spark_trade_mft_raw_data.Prelude.{
  ℕ, zero, suc, ◌%◌, ◌≡◌, refl, ap, sym, ◌∙◌, Bool, true, false, ◌&&◌, ◌||◌, not, none, some, List,
  [], ◌∷◌, ◌++◌, if◌then◌else◌, arith, All, All-append, All_mono, subst, if_cases,
}
use spark_trade_mft_raw_data.Ipc.Server.Lifecycle.{
  Phase, accepted, added, checking, reading, leaving, finished, Conn, Server, listen, Tracking,
  keeps, adds, deletes, count_active, move_at, move, move_nth, any_in_hand, accept, close_tracked,
  stop, all_ended, finish_stop, Action, accepts, moves, stops, finishes, act, run,
}

-- trackConn has been called for it, and not yet for its end
abbrev pub is_held : Phase → Bool
is_held accepted = false
is_held added = true
is_held checking = true
is_held reading = true
is_held leaving = true
is_held finished = false

-- The state of a connection at this phase, on a server that is closed or not.
pub record Fits (closed : Bool) (at : Phase) (c : Conn) : Type 0 where
  pub held : c.tracked ≡ is_held at
  pub cut : at ≡ reading → closed ≡ true → c.open_ ≡ false
  pub shut : at ≡ finished → c.open_ ≡ false

abbrev pub IsFit : Bool → Conn → Type 0
IsFit closed c = Fits closed c.at c

-- the connections that are being handled
abbrev pub held_count : List Conn → ℕ
held_count [] = 0
held_count (c ∷ cs) = if c.tracked then suc (held_count cs) else held_count cs

pub record IsSound (s : Server) : Type 0 where
  pub fits : All (IsFit s.closed) s.conns
  pub counted : s.active ≡ held_count s.conns % 0x1_0000_0000_0000_0000

move_at-Fits :
    (at : Phase) (closed goes_on : Bool) (c : Conn)
    → c.at ≡ at
    → Fits closed at c
    → IsFit closed (move_at at closed goes_on c).1
unfolding move_at
move_at-Fits accepted closed goes_on c e f = record {
  held = refl;
  cut = λ p q. grind arith;
  shut = λ p. grind arith;
}
move_at-Fits added closed goes_on c e f = record {
  held = f.held;
  cut = λ p q. grind arith;
  shut = λ p. grind arith;
}
move_at-Fits checking true goes_on c e f = record {
  held = f.held;
  cut = λ p q. grind arith;
  shut = λ p. grind arith;
}
move_at-Fits checking false goes_on c e f = record {
  held = f.held;
  cut = λ p q. grind arith;
  shut = λ p. grind arith;
}
move_at-Fits reading closed goes_on c e f =
    if_cases (λ p. Fits closed p (record c { at = p })) (c.open_ && goes_on)
      (λ _. record { held = f.held; cut = λ p q. grind arith; shut = λ p. grind arith })
      (λ _. record { held = f.held; cut = λ p q. grind arith; shut = λ p. grind arith })
move_at-Fits leaving closed goes_on c e f = record {
  held = refl;
  cut = λ p q. grind arith;
  shut = λ p. refl;
}
move_at-Fits finished closed goes_on c e f = subst (λ p. Fits closed p c) (sym e) f

-- what the counts of the connections before and after have to do with each other
abbrev pub Counts : Tracking → ℕ → ℕ → Type 0
Counts keeps n m = m ≡ n
Counts adds n m = m ≡ suc n
Counts deletes n m = n ≡ suc m

count_active-Counts :
    (t : Tracking) (n m : ℕ)
    → Counts t n m
    → count_active t (n % 0x1_0000_0000_0000_0000) ≡ m % 0x1_0000_0000_0000_0000
unfolding count_active
count_active-Counts keeps n m e = omega arith
count_active-Counts adds n m e = omega arith
count_active-Counts deletes n m e = omega arith

move_at-Counts :
    (at : Phase) (closed goes_on : Bool) (c : Conn) (cs : List Conn)
    → Fits closed at c
    → Counts
        (move_at at closed goes_on c).0
        (held_count (c ∷ cs))
        (held_count ((move_at at closed goes_on c).1 ∷ cs))
unfolding move_at
move_at-Counts accepted closed goes_on c cs f = ground (arith, f.held)
move_at-Counts added closed goes_on c cs f = refl
move_at-Counts checking closed goes_on c cs f = refl
move_at-Counts reading closed goes_on c cs f = refl
move_at-Counts leaving closed goes_on c cs f = ground (arith, f.held)
move_at-Counts finished closed goes_on c cs f = refl

-- a connection in front does not matter
Counts-behind :
    (t : Tracking) (c : Conn) (cs ds : List Conn)
    → Counts t (held_count cs) (held_count ds)
    → Counts t (held_count (c ∷ cs)) (held_count (c ∷ ds))
Counts-behind keeps c cs ds e = ground arith
Counts-behind adds c cs ds e = ground arith
Counts-behind deletes c cs ds e = ground arith

move_nth-IsFit :
    (closed goes_on : Bool) (i : ℕ) (cs : List Conn)
    → All (IsFit closed) cs
    → All (IsFit closed) (move_nth closed goes_on i cs).1
      × Counts
          (move_nth closed goes_on i cs).0
          (held_count cs)
          (held_count (move_nth closed goes_on i cs).1)
unfolding move_nth move
move_nth-IsFit closed goes_on i [] h = (h, refl)
move_nth-IsFit closed goes_on zero (c ∷ cs) (f, h) =
    ((move_at-Fits c.at closed goes_on c refl f, h), move_at-Counts c.at closed goes_on c cs f)
move_nth-IsFit closed goes_on (suc i) (c ∷ cs) (f, h) =
    let r = move_nth closed goes_on i cs in
    let (k, n) = move_nth-IsFit closed goes_on i cs h in ((f, k), Counts-behind r.0 c cs r.1 n)

close_tracked-IsFit :
    (cs : List Conn)
    → All (IsFit false) cs
    → All (IsFit true) (close_tracked cs) × (held_count (close_tracked cs) ≡ held_count cs)
unfolding close_tracked
close_tracked-IsFit [] h = (h, refl)
close_tracked-IsFit (c ∷ cs) (f, h) =
    let (k, n) = close_tracked-IsFit cs h in
    (
      (
        record {
          held = f.held;
          cut = λ p q. ground (arith, f.held, p);
          shut = λ p. ground (arith, f.shut p);
        },
        k,
      ),
      ap (λ m. if c.tracked then suc m else m) n,
    )

held_count-new :
    (cs : List Conn) (c : Conn) → c.tracked ≡ false → held_count (cs ++ (c ∷ [])) ≡ held_count cs
held_count-new [] c e = ground arith
held_count-new (d ∷ cs) c e = ap (λ m. if d.tracked then suc m else m) (held_count-new cs c e)

accept-IsSound : (fails : Bool) (s : Server) → IsSound s → IsSound (accept fails s)
unfolding accept
accept-IsSound fails s h =
    if_cases IsSound (not s.accepting || any_in_hand s.conns) (λ _. h)
      (λ _.
        if_cases IsSound (s.closed || fails) (λ _. record { fits = h.fits; counted = h.counted })
          (λ _. record {
            fits =
                All-append (IsFit s.closed) s.conns _ h.fits
                  (record { held = refl; cut = λ p q. grind arith; shut = λ p. grind arith }, tt);
            counted =
                h.counted
                ∙ ap (λ n. n % 0x1_0000_0000_0000_0000)
                    (sym (
                      held_count-new s.conns
                        (record { at = accepted; tracked = false; open_ = true }) refl));
          }))

pub act-IsSound : (a : Action) (s : Server) → IsSound s → IsSound (act a s)
unfolding act stop finish_stop
act-IsSound (accepts fails) s h = accept-IsSound fails s h
act-IsSound (moves i goes_on) s h =
    let r = move_nth s.closed goes_on i s.conns in
    let (k, n) = move_nth-IsFit s.closed goes_on i s.conns h.fits in
    record {
      fits = k;
      counted =
          ap (count_active r.0) h.counted
          ∙ count_active-Counts r.0 (held_count s.conns) (held_count r.1) n;
    }
act-IsSound stops s h =
    if_cases IsSound s.closed (λ _. h)
      (λ p.
        let (k, n) = close_tracked-IsFit s.conns (subst (λ b. All (IsFit b) s.conns) p h.fits) in
        record { fits = k; counted = h.counted ∙ ap (λ m. m % 0x1_0000_0000_0000_0000) (sym n) })
act-IsSound finishes s h =
    if_cases IsSound (s.closed && not s.accepting && all_ended s.conns)
      (λ _. record { fits = h.fits; counted = h.counted }) (λ _. h)

pub run-IsSound : (todo : List Action) (s : Server) → IsSound s → IsSound (run todo s)
unfolding run
run-IsSound [] s h = h
run-IsSound (a ∷ todo) s h = run-IsSound todo (act a s) (act-IsSound a s h)

pub listen-IsSound : (made bound : Bool) (s : Server) → listen made bound ≡ some s → IsSound s
unfolding listen
listen-IsSound true true s e =
    subst IsSound (ap (λ o. elim o [ none ↦ s | some t ↦ t ]) e)
      (record { fits = tt; counted = refl })
listen-IsSound true false s e = cc
listen-IsSound false bound s e = cc

-- However the goroutines of a new server are interleaved, Stop included: the count of active
-- connections, an int64, is the number of the connections that trackConn has been called for and
-- whose goroutines have not ended, and a connection whose goroutine has ended is closed.
pub run-listen-active :
    (made bound : Bool) (s : Server) (todo : List Action)
    → listen made bound ≡ some s
    → ((run todo s).active ≡ held_count (run todo s).conns % 0x1_0000_0000_0000_0000)
      × All
          (λ c. (c.tracked ≡ is_held c.at) × (c.at ≡ finished → c.open_ ≡ false))
          (run todo s).conns
run-listen-active made bound s todo e =
    let h = run-IsSound todo s (listen-IsSound made bound s e) in
    (h.counted, All_mono (λ c f. (f.held, f.shut)) (run todo s).conns h.fits)
