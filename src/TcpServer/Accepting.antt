-- ===== src/TcpServer/Accepting.antt =====
-- `start` of matelib/TcpServer.cc, and `handleConnection` for an accepted connection.
use matelib.Prelude.{
  ℕ, zero, suc, ◌+◌, ◌%◌, ◌<◌, ◌≡◌, ◌≢◌, ◌^◌, refl, ap, ◌∙◌, Bool, true, List, [], ◌∷◌, some, arith,
}
use matelib.EventLoopThreadPool.{get_next_loop}
use matelib.EventLoopThreadPool.Turns.{
  running, start-running, get_next_loop-running, get_next_loop-base,
}
use matelib.Prelude.Text.{find, find-insert_self, find-insert_ne}
use matelib.InetAddress.{InetAddress}
use matelib.TcpServer.{
  Connection, established, listen, enable_accept, TcpServer, make, start_server, connection_name,
  connection, add_connection, handle_connection, handle_connection-get_next_loop,
}

-- The pool of a started server with `n` threads, and the number of the thread whose turn it is.
abbrev pub IsTurn : ℕ → ℕ → Type 0
IsTurn zero turn = turn ≡ 0
IsTurn (suc n) turn = turn < suc n

-- The loop whose turn it is, and the next turn.
abbrev pub loop_at : (ℕ → ℕ) → ℕ → ℕ → ℕ → ℕ
loop_at threads base zero turn = base
loop_at threads base (suc n) turn = threads turn

abbrev pub turn_after : ℕ → ℕ → ℕ
turn_after zero turn = turn
turn_after (suc n) turn = (turn + 1) % suc n

module _ (threads : ℕ → ℕ) (base n : ℕ) where
  pub record IsServing (s : TcpServer) (turn : ℕ) : Type 0 where
    pub on : s.started ≡ true
    pub pool : s.io_thread_pool ≡ running threads base n turn
    pub in_range : IsTurn n turn

  -- The connection for an accepted descriptor: its number in its name, and the loop whose turn it is.
  abbrev pub accepted : TcpServer → ℕ → ℕ → InetAddress → InetAddress → Connection
  accepted s turn fd local peer = record {
    name = connection_name s.next_conn_id local fd peer;
    loop = loop_at threads base n turn;
    sockfd = fd;
  }

next_of_pool :
    (threads : ℕ → ℕ) (base n turn : ℕ)
    → IsTurn n turn
    → (get_next_loop (running threads base n turn)
        ≡ some (loop_at threads base n turn, running threads base n (turn_after n turn)))
      × IsTurn n (turn_after n turn)
next_of_pool threads base zero turn h = (get_next_loop-base (running threads base 0 turn) refl, h)
next_of_pool threads base (suc n) turn h =
    (get_next_loop-running threads base (suc n) turn h, omega arith)

pub start_server-IsServing :
    (threads : ℕ → ℕ) (base n : ℕ) (has_callback : Bool)
    → (s : TcpServer) × (start_server threads has_callback (make base n)
        ≡ some (s, listen ∷ (enable_accept ∷ [])))
      × IsServing threads base n s 0
unfolding start_server
start_server-IsServing threads base n has_callback = (
  record (make base n) { started = true; io_thread_pool = running threads base n 0 },
  rw (start-running threads base n has_callback),
  record { on = refl; pool = refl; in_range = first n },
)
  where
    first : (n : ℕ) → IsTurn n 0
    first zero = refl
    first (suc n) = omega arith

-- On a started server with any number of threads, `handle_connection` with an accepted
-- descriptor succeeds and leaves a server that can go on: the connection with the next number in
-- its name and the loop whose turn it is stands in the map under its name, what the map holds
-- under any other name is as before, the connection is handed to that loop once, the number goes
-- up by one, and the turn passes to the next thread.
pub handle_connection-IsServing :
    (threads : ℕ → ℕ) (base n : ℕ) (s : TcpServer) (turn fd : ℕ) (local peer : InetAddress)
    (other : List ℕ)
    → IsServing threads base n s turn
    → connection_name s.next_conn_id local fd peer ≢ other
    → let conn = accepted threads base n s turn fd local peer in
      (s' : TcpServer) × (handle_connection s (connection fd local peer)
        ≡ some (s', established conn ∷ [], []))
      × (find conn.name s'.connection_map ≡ some conn)
      × (find other s'.connection_map ≡ find other s.connection_map)
      × (s'.next_conn_id ≡ (s.next_conn_id + 1) % 2 ^ 32)
      × IsServing threads base n s' (turn_after n turn)
handle_connection-IsServing threads base n s turn fd local peer other h ne =
    let (found, next) = next_of_pool threads base n turn h.in_range in
    let conn = accepted threads base n s turn fd local peer in
    (
      add_connection s conn (running threads base n (turn_after n turn)),
      handle_connection-get_next_loop s fd local peer (ap get_next_loop h.pool ∙ found),
      find-insert_self conn.name conn s.connection_map,
      find-insert_ne conn.name other conn s.connection_map ne,
      refl,
      record { on = h.on; pool = refl; in_range = next },
    )
