-- ===== src/Ipc/Server/Lifecycle.antt =====
-- pkg/ipc/server.go: Listen, acceptLoop, trackConn, Stop, and the goroutines of the connections as
-- Stop sees them: which frames they read and write is left to serve_conn.
pub mod Active
pub mod Stopping
use spark_trade_mft_raw_data.Prelude.{
  ℕ, zero, suc, ◌+◌, ◌%◌, Bool, true, false, ◌&&◌, ◌||◌, not, Option, none, some, List, [], ◌∷◌,
  ◌++◌, if◌then◌else◌,
}
use spark_trade_mft_raw_data.Prelude.Word.{inc_uint64}

-- Where a connection is: acceptLoop has it from Accept, or has tracked it; or its goroutine is in
-- front of the test of `quit`, in the iteration behind that, in front of its deferred calls, or has
-- ended.
pub data Phase : Type 0 where
  accepted added checking reading leaving finished : Phase

-- `tracked`: the connection is a key of `conns`; `open_`: Close has not been called on it.
pub record Conn : Type 0 where
  pub at : Phase
  pub tracked : Bool
  pub open_ : Bool

-- The connections in the order in which they came, those that have ended included. `closed` stands for
-- the closed channel and the closed listener too. `active` is an int64 as a word, and `socket` says
-- whether the socket file is there.
pub record Server : Type 0 where
  pub conns : List Conn
  pub accepting : Bool
  pub closed : Bool
  pub active : ℕ
  pub socket : Bool

-- Listen, with whether the directory could be made and the socket be bound
unfoldable pub listen : Bool → Bool → Option Server
listen made bound =
    if made && bound
    then some (record { conns = []; accepting = true; closed = false; active = 0; socket = true })
    else none

-- What trackConn does to the count of the active connections.
pub data Tracking : Type 0 where
  keeps adds deletes : Tracking

abbrev pub dec_int64 : ℕ → ℕ
dec_int64 n = (n + 0xffff_ffff_ffff_ffff) % 0x1_0000_0000_0000_0000

unfoldable pub count_active : Tracking → ℕ → ℕ
count_active keeps n = n
count_active adds n = inc_uint64 n
count_active deletes n = dec_int64 n

-- The next step with a connection: trackConn and `go serveConn` of acceptLoop; the test of `quit`; an
-- iteration, with whether the loop goes on behind it, where a read from a closed connection fails;
-- the deferred calls.
unfoldable pub move_at : Phase → Bool → Bool → Conn → Tracking × Conn
move_at accepted closed goes_on c = (adds, record c { at = added; tracked = true })
move_at added closed goes_on c = (keeps, record c { at = checking })
move_at checking closed goes_on c = (keeps, record c { at = if closed then leaving else reading })
move_at reading closed goes_on c =
    (keeps, record c { at = if c.open_ && goes_on then checking else leaving })
move_at leaving closed goes_on c =
    (deletes, record { at = finished; tracked = false; open_ = false })
move_at finished closed goes_on c = (keeps, c)

unfoldable pub move : Bool → Bool → Conn → Tracking × Conn
unfolding move_at
move closed goes_on c = move_at c.at closed goes_on c

-- the connection with this number
unfoldable pub move_nth : Bool → Bool → ℕ → List Conn → Tracking × List Conn
unfolding move
move_nth closed goes_on i [] = (keeps, [])
move_nth closed goes_on zero (c ∷ cs) = let (t, d) = move closed goes_on c in (t, d ∷ cs)
move_nth closed goes_on (suc i) (c ∷ cs) = let (t, ds) = move_nth closed goes_on i cs in (t, c ∷ ds)

-- acceptLoop has this connection in hand
unfoldable pub in_hand : Phase → Bool
in_hand accepted = true
in_hand added = true
in_hand checking = false
in_hand reading = false
in_hand leaving = false
in_hand finished = false

unfoldable pub any_in_hand : List Conn → Bool
unfolding in_hand
any_in_hand [] = false
any_in_hand (c ∷ cs) = in_hand c.at || any_in_hand cs

-- A turn of acceptLoop when it has no connection in hand; Accept fails on a closed listener, or for a
-- reason of its own, and ends the loop.
unfoldable pub accept : Bool → Server → Server
unfolding any_in_hand
accept fails s =
    if not s.accepting || any_in_hand s.conns
    then s
    else if s.closed || fails
    then record s { accepting = false }
    else record s {
      conns = s.conns ++ (record { at = accepted; tracked = false; open_ = true } ∷ []);
    }

unfoldable pub close_tracked : List Conn → List Conn
close_tracked [] = []
close_tracked (c ∷ cs) = record c { open_ = c.open_ && not c.tracked } ∷ close_tracked cs

-- Stop up to its wait for the goroutines, all of it under the mutex
unfoldable pub stop : Server → Server
unfolding close_tracked
stop s = if s.closed then s else record s { closed = true; conns = close_tracked s.conns }

unfoldable pub is_finished : Phase → Bool
is_finished accepted = false
is_finished added = false
is_finished checking = false
is_finished reading = false
is_finished leaving = false
is_finished finished = true

-- the goroutines have all ended
unfoldable pub all_ended : List Conn → Bool
unfolding is_finished
all_ended [] = true
all_ended (c ∷ cs) = is_finished c.at && all_ended cs

-- the end of Stop: the socket file is removed once acceptLoop and the connections have ended
unfoldable pub finish_stop : Server → Server
unfolding all_ended
finish_stop s =
    if s.closed && not s.accepting && all_ended s.conns then record s { socket = false } else s

-- What the goroutines do, in any order.
pub data Action : Type 0 where
  accepts : Bool → Action
  moves : ℕ → Bool → Action
  stops : Action
  finishes : Action

unfoldable pub act : Action → Server → Server
unfolding accept move_nth count_active stop finish_stop
act (accepts fails) s = accept fails s
act (moves i goes_on) s =
    let (t, cs) = move_nth s.closed goes_on i s.conns in
    record s { conns = cs; active = count_active t s.active }
act stops s = stop s
act finishes s = finish_stop s

unfoldable pub run : List Action → Server → Server
unfolding act
run [] s = s
run (a ∷ rest) s = run rest (act a s)
