-- ===== src/TcpServer.antt =====
-- matelib/TcpServer.h and matelib/TcpServer.cc: the connections of a server, from their acceptance
-- to their removal. What the kernel answers is an argument; the tasks that are handed to loops and
-- the calls of the kernel are results. `none` is a failed assert or an index out of range.
pub mod Naming
pub mod Lives
pub mod Map
pub mod Accepting
mod Tests
use matelib.Prelude.{
  ℕ, zero, suc, ◌+◌, ◌-◌, ◌%◌, ◌^◌, ltb, Bool, true, false, List, [], ◌∷◌, ◌++◌, Option, none, some,
  ◌>>=◌, if◌then◌else◌, take, map, ◌≡◌,
}
use matelib.Prelude.Text.{codes, decimal, MapOf, insert, erase}
use matelib.InetAddress.{InetAddress, to_port, to_ip_port}
use matelib.EventLoopThreadPool.{EventLoopThreadPool, fresh, start, get_next_loop}

-- A connection: its name, and the loop of its thread.
pub record Connection : Type 0 where
  pub name : List ℕ
  pub loop : ℕ
  pub sockfd : ℕ

-- What is handed to a loop.
pub data Task : Type 0 where
  established : Connection → Task
  destroyed : Connection → Task

-- The calls of the kernel and of the channel that change their state.
pub data Call : Type 0 where
  listen : Call
  enable_accept : Call
  close_idle : Call
  accept_idle : Call
  open_idle : Call

pub record TcpServer : Type 0 where
  pub started : Bool
  pub io_thread_pool : EventLoopThreadPool
  pub next_conn_id : ℕ
  pub connection_map : MapOf Connection

abbrev pub make : ℕ → ℕ → TcpServer
make base_loop thread_num = record {
  started = false;
  io_thread_pool = fresh base_loop thread_num;
  next_conn_id = 0;
  connection_map = [];
}

-- `start`, whose threads have the loops `threads`.
pub start_server : (ℕ → ℕ) → Bool → TcpServer → Option (TcpServer × List Call)
start_server threads has_callback s = if s.started then some (s, []) else (do
  (pool, called) ← start threads has_callback s.io_thread_pool
  some (record s { started = true; io_thread_pool = pool }, listen ∷ (enable_accept ∷ [])))

-- What "%d" makes of an `unsigned int`.
abbrev pub int_text : ℕ → List ℕ
int_text n = if ltb n (2 ^ 31) then decimal n else codes "-" ++ decimal (2 ^ 32 - n)

-- `snprintf(buf, 32, "#%d:%s.%d-%s", ...)`
unfoldable pub connection_name : ℕ → InetAddress → ℕ → InetAddress → List ℕ
connection_name id local fd peer = take 31 (
    codes "#"
    ++ (int_text id
        ++ (codes ":"
            ++ (to_port local ++ (codes "." ++ (int_text fd ++ (codes "-" ++ to_ip_port peer)))))))

-- What `accept4` returns.
pub data Accepted : Type 0 where
  connection : ℕ → InetAddress → InetAddress → Accepted
  too_many_files : Accepted
  other_error : Accepted

-- The connection for a descriptor, in the loop that the pool gives, and the server with it.
abbrev pub new_connection : TcpServer → ℕ → InetAddress → InetAddress → ℕ → Connection
new_connection s fd local peer loop = record {
  name = connection_name s.next_conn_id local fd peer;
  loop = loop;
  sockfd = fd;
}

abbrev pub add_connection : TcpServer → Connection → EventLoopThreadPool → TcpServer
add_connection s conn pool = record s {
  io_thread_pool = pool;
  next_conn_id = (s.next_conn_id + 1) % 2 ^ 32;
  connection_map = insert conn.name conn s.connection_map;
}

-- `handleConnection`: the server, the tasks for the connection's loop, and the calls.
pub handle_connection : TcpServer → Accepted → Option (TcpServer × List Task × List Call)
handle_connection s too_many_files =
    some (s, [], close_idle ∷ (accept_idle ∷ (close_idle ∷ (open_idle ∷ []))))
handle_connection s other_error = some (s, [], [])
handle_connection s (connection fd local peer) = do
  (loop, pool) ← get_next_loop s.io_thread_pool
  let conn = new_connection s fd local peer loop
  some (add_connection s conn pool, established conn ∷ [], [])

-- It succeeds if the pool gives a loop.
pub handle_connection-get_next_loop :
    (s : TcpServer) (fd : ℕ) (local peer : InetAddress) {loop : ℕ} {pool : EventLoopThreadPool}
    → get_next_loop s.io_thread_pool ≡ some (loop, pool)
    → handle_connection s (connection fd local peer)
      ≡ some (
        add_connection s (new_connection s fd local peer loop) pool,
        established (new_connection s fd local peer loop) ∷ [],
        [],
      )
unfolding handle_connection
handle_connection-get_next_loop s fd local peer e = rw e

-- `removeConnectionInLoop`
unfoldable pub remove_connection_in_loop : TcpServer → Connection → TcpServer × Task
remove_connection_in_loop s conn =
    (record s { connection_map = erase conn.name s.connection_map }, destroyed conn)

-- `~TcpServer`
abbrev pub destroy : TcpServer → List Task
destroy s = map (λ (entry : List ℕ × Connection). destroyed entry.1) s.connection_map
