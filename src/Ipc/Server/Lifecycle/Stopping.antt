-- ===== src/Ipc/Server/Lifecycle/Stopping.antt =====
-- A server that is stopped ends (pkg/ipc/server.go).
use spark_trade_mft_raw_data.Prelude.{
  ℕ, zero, suc, ◌-◌, ◌%◌, ◌≤◌, ◌<◌, ◌≡◌, refl, ap, ◌∙◌, Bool, true, false, ◌&&◌, ◌||◌, not, some,
  List, [], ◌∷◌, if◌then◌else◌, arith, All, length, ◌==◌, subst, if_cases, Bool-cases, inl, inr,
}
use spark_trade_mft_raw_data.Ipc.Server.Lifecycle.{
  Phase, accepted, added, checking, reading, leaving, finished, Conn, Server, listen, move_at, move,
  move_nth, in_hand, any_in_hand, accept, stop, is_finished, all_ended, finish_stop, Action,
  accepts, moves, stops, finishes, act, run,
}
use spark_trade_mft_raw_data.Ipc.Server.Lifecycle.Active.{
  Fits, IsFit, is_held, IsSound, held_count, listen-IsSound, run-IsSound, act-IsSound,
}

-- the steps that a connection still takes on a closed server
abbrev pub rank : Phase → ℕ
rank accepted = 4
rank added = 3
rank checking = 2
rank reading = 2
rank leaving = 1
rank finished = 0

abbrev pub rank_of : ℕ → List Conn → ℕ
rank_of j [] = 0
rank_of zero (c ∷ cs) = rank c.at
rank_of (suc j) (c ∷ cs) = rank_of j cs

-- the turns that a connection gets in a row of actions
abbrev pub turns : ℕ → List Action → ℕ
turns j [] = 0
turns j (accepts fails ∷ todo) = turns j todo
turns j (moves i goes_on ∷ todo) = if i == j then suc (turns j todo) else turns j todo
turns j (stops ∷ todo) = turns j todo
turns j (finishes ∷ todo) = turns j todo

-- each step of a connection on a closed server brings it nearer to its end
move_at-rank :
    (at : Phase) (goes_on : Bool) (c : Conn)
    → c.at ≡ at
    → Fits true at c
    → rank (move_at at true goes_on c).1.at ≡ rank at - 1
unfolding move_at
move_at-rank accepted goes_on c e f = refl
move_at-rank added goes_on c e f = refl
move_at-rank checking goes_on c e f = refl
move_at-rank reading goes_on c e f = ground (arith, f.cut refl refl)
move_at-rank leaving goes_on c e f = refl
move_at-rank finished goes_on c e f = ap rank e

move_nth-rank :
    (goes_on : Bool) (i j : ℕ) (cs : List Conn)
    → All (IsFit true) cs
    → rank_of j (move_nth true goes_on i cs).1 ≡ rank_of j cs - (if i == j then 1 else 0)
unfolding move_nth move
move_nth-rank goes_on i j [] h = omega arith
move_nth-rank goes_on zero zero (c ∷ cs) (f, h) = move_at-rank c.at goes_on c refl f
move_nth-rank goes_on zero (suc j) (c ∷ cs) (f, h) = ground arith
move_nth-rank goes_on (suc i) zero (c ∷ cs) (f, h) = ground arith
move_nth-rank goes_on (suc i) (suc j) (c ∷ cs) (f, h) =
    move_nth-rank goes_on i j cs h ∙ ground arith

accept-conns : (fails : Bool) (s : Server) → s.closed ≡ true → (accept fails s).conns ≡ s.conns
unfolding accept
accept-conns fails s c =
    if_cases (λ (t : Server). t.conns ≡ s.conns) (not s.accepting || any_in_hand s.conns)
      (λ _. refl)
      (λ _.
        if_cases (λ (t : Server). t.conns ≡ s.conns) (s.closed || fails) (λ _. refl)
          (λ p. ground arith))

finish_stop-kept :
    (s : Server) → ((finish_stop s).conns ≡ s.conns) × ((finish_stop s).closed ≡ s.closed)
unfolding finish_stop
finish_stop-kept s =
    if_cases (λ (t : Server). (t.conns ≡ s.conns) × (t.closed ≡ s.closed))
      (s.closed && not s.accepting && all_ended s.conns) (λ _. (refl, refl)) (λ _. (refl, refl))

accept-closed : (fails : Bool) (s : Server) → (accept fails s).closed ≡ s.closed
unfolding accept
accept-closed fails s =
    if_cases (λ (t : Server). t.closed ≡ s.closed) (not s.accepting || any_in_hand s.conns)
      (λ _. refl)
      (λ _.
        if_cases (λ (t : Server). t.closed ≡ s.closed) (s.closed || fails) (λ _. refl) (λ _. refl))

stop-again : (s : Server) → s.closed ≡ true → stop s ≡ s
unfolding stop
stop-again s c = if_cases (λ t. t ≡ s) s.closed (λ _. refl) (λ p. cc)

minus-turn : (b : Bool) (n t : ℕ) → n - (if b then 1 else 0) - t ≡ n - (if b then suc t else t)
minus-turn true n t = omega arith
minus-turn false n t = omega arith

-- A row of actions on a closed server takes each connection as many steps towards its end as it has
-- turns.
run-rank :
    (j : ℕ) (todo : List Action) (s : Server)
    → s.closed ≡ true
    → IsSound s
    → ((run todo s).closed ≡ true)
      × (rank_of j (run todo s).conns ≡ rank_of j s.conns - turns j todo)
unfolding run act
run-rank j [] s c h = (c, omega arith)
run-rank j (accepts fails ∷ todo) s c h =
    let (c', r) =
      run-rank j todo (accept fails s) (accept-closed fails s ∙ c)
        (act-IsSound (accepts fails) s h) in
    (c', r ∙ ap (λ cs. rank_of j cs - turns j todo) (accept-conns fails s c))
run-rank j (moves i goes_on ∷ todo) s c h =
    let (c', r) = run-rank j todo (act (moves i goes_on) s) c (act-IsSound (moves i goes_on) s h) in
    let m = move_nth-rank goes_on i j s.conns (subst (λ b. All (IsFit b) s.conns) c h.fits) in
    (
      c',
      r
          ∙ (ap (λ b. rank_of j (move_nth b goes_on i s.conns).1 - turns j todo) c
              ∙ (ap (λ n. n - turns j todo) m
                  ∙ minus-turn (i == j) (rank_of j s.conns) (turns j todo))),
    )
run-rank j (stops ∷ todo) s c h =
    let (c', r) =
      run-rank j todo (stop s) (ap (λ (t : Server). t.closed) (stop-again s c) ∙ c)
        (act-IsSound stops s h) in
    (c', r ∙ ap (λ t. rank_of j t.conns - turns j todo) (stop-again s c))
run-rank j (finishes ∷ todo) s c h =
    let (same, closed) = finish_stop-kept s in
    let (c', r) = run-rank j todo (finish_stop s) (closed ∙ c) (act-IsSound finishes s h) in
    (c', r ∙ ap (λ cs. rank_of j cs - turns j todo) same)

rank_small : (j : ℕ) (cs : List Conn) → rank_of j cs ≤ 4
rank_small j [] = omega arith
rank_small zero (c ∷ cs) = four c.at
  where
    four : (at : Phase) → rank at ≤ 4
    four accepted = omega arith
    four added = omega arith
    four checking = omega arith
    four reading = omega arith
    four leaving = omega arith
    four finished = omega arith
rank_small (suc j) (c ∷ cs) = rank_small j cs

turned : (j : ℕ) (cs : List Conn) (n : ℕ) → (j < length cs → 4 ≤ n) → rank_of j cs - n ≡ 0
turned j [] n h = omega arith
turned zero (c ∷ cs) n h = omega (arith, rank_small 0 (c ∷ cs), h (ground arith))
turned (suc j) (c ∷ cs) n h = turned j cs n (λ l. h (ground arith))

-- a connection whose goroutine has ended
pub record IsEnded (c : Conn) : Type 0 where
  pub at_end : c.at ≡ finished
  pub untracked : c.tracked ≡ false
  pub shut : c.open_ ≡ false

rank-finished : (at : Phase) → rank at ≡ 0 → at ≡ finished
rank-finished accepted e = absurd (omega arith)
rank-finished added e = absurd (omega arith)
rank-finished checking e = absurd (omega arith)
rank-finished reading e = absurd (omega arith)
rank-finished leaving e = absurd (omega arith)
rank-finished finished e = refl

ended :
    (closed : Bool) (cs : List Conn)
    → All (IsFit closed) cs
    → ((j : ℕ) → rank_of j cs ≡ 0)
    → All IsEnded cs × (all_ended cs ≡ true) × (any_in_hand cs ≡ false) × (held_count cs ≡ 0)
unfolding all_ended any_in_hand in_hand is_finished
ended closed [] h z = (tt, refl, refl, refl)
ended closed (c ∷ cs) (f, h) z =
    let e = rank-finished c.at (z 0) in
    let free : c.tracked ≡ false = f.held ∙ ap is_held e in
    let (k, a, b, n) = ended closed cs h (λ j. z (suc j)) in
    ((record { at_end = e; untracked = free; shut = f.shut e }, k), rw e a, rw e b, rw free n)

stop-closed : (s : Server) → (stop s).closed ≡ true
unfolding stop
stop-closed s = if_cases (λ (t : Server). t.closed ≡ true) s.closed (λ p. p) (λ _. refl)

-- the last turns of a closed server whose connections have ended
last_turns :
    (fails : Bool) (s : Server)
    → s.closed ≡ true
    → all_ended s.conns ≡ true
    → any_in_hand s.conns ≡ false
    → finish_stop (accept fails s) ≡ record s { accepting = false; socket = false }
unfolding accept finish_stop
last_turns fails s c a b = elim (Bool-cases s.accepting) [
  | inl p ↦ ground arith
  | inr p ↦ ground arith
]

-- Whatever a new server has done when Stop closes it, and whatever its goroutines do then in
-- whatever order: once each connection has had four turns, and acceptLoop one more, Stop gets through
-- its wait and removes the socket file; every connection is closed and forgotten, its goroutine has
-- ended, and none is counted as active.
pub stopped_ends :
    (made bound : Bool) (s : Server) (before todo : List Action) (fails : Bool)
    → listen made bound ≡ some s
    → ((j : ℕ) → j < length (stop (run before s)).conns → 4 ≤ turns j todo)
    → let t = finish_stop (accept fails (run todo (stop (run before s)))) in
      (t.socket ≡ false) × (t.active ≡ 0) × All IsEnded t.conns
unfolding act
stopped_ends made bound s before todo fails e enough =
    let u = stop (run before s) in
    let h =
      act-IsSound stops (run before s) (run-IsSound before s (listen-IsSound made bound s e)) in
    let c = (run-rank 0 todo u (stop-closed (run before s)) h).0 in
    let k = run-IsSound todo u h in
    let (gone, a, b, n) = ended (run todo u).closed (run todo u).conns k.fits (λ j.
      (run-rank j todo u (stop-closed (run before s)) h).1
      ∙ turned j u.conns (turns j todo) (enough j)) in
    rw (last_turns fails (run todo u) c a b)
      (refl, k.counted ∙ ap (λ m. m % 0x1_0000_0000_0000_0000) n, gone)
