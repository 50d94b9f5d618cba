-- ===== src/TcpServer/Lives.antt =====
-- The connections of a server of matelib/TcpServer.cc in their loops, interleaved with the server's
-- own loop.
use matelib.Prelude.{ℕ, ◌^◌, ◌<◌, ◌≡◌, Bool, true, false, some}
use matelib.Prelude.Store.{put}
use matelib.InetAddress.{InetAddress}
use matelib.EventLoopThreadPool.{EventLoopThreadPool, get_next_loop}
use matelib.TcpServer.{
  Connection, TcpServer, new_connection, add_connection, remove_connection_in_loop,
}

-- Where the `i`th connection is: accepted, with `connectionEstablished` handed to its loop;
-- established; closed, with `removeConnectionInLoop` handed to the server's loop; removed, with
-- `connectionDestroyed` handed to its own loop; destroyed.
pub data Phase : Type 0 where
  absent accepted up closing removed gone : Phase

abbrev pub is_kept : Phase → Bool
is_kept accepted = true
is_kept up = true
is_kept closing = true
is_kept _ = false

pub record System : Type 0 where
  pub server : TcpServer
  pub conns : ℕ → Connection
  pub phase : ℕ → Phase

-- `handleConnection` has taken in a connection.
abbrev pub taken_in : System → Connection → EventLoopThreadPool → System
taken_in s conn pool = record {
  server = add_connection s.server conn pool;
  conns = put s.conns s.server.next_conn_id conn;
  phase = put s.phase s.server.next_conn_id accepted;
}

pub data Step (s : System) : System → Type 0 where
  accepts :
      (fd : ℕ) (local peer : InetAddress) (loop : ℕ) (pool : EventLoopThreadPool)
      → s.server.next_conn_id < 2 ^ 31
      → get_next_loop s.server.io_thread_pool ≡ some (loop, pool)
      → Step s (taken_in s (new_connection s.server fd local peer loop) pool)
  establishes : (i : ℕ) → s.phase i ≡ accepted → Step s (record s { phase = put s.phase i up })
  closes : (i : ℕ) → s.phase i ≡ up → Step s (record s { phase = put s.phase i closing })
  removes :
      (i : ℕ)
      → s.phase i ≡ closing
      → Step s (record s {
        server = (remove_connection_in_loop s.server (s.conns i)).0;
        phase = put s.phase i removed;
      })
  destroys : (i : ℕ) → s.phase i ≡ removed → Step s (record s { phase = put s.phase i gone })

pub data Reach (start : TcpServer) (unused : Connection) : System → Type 0 where
  here : Reach start unused (record { server = start; conns = λ i. unused; phase = λ i. absent })
  next : {s t : System} → Reach start unused s → Step s t → Reach start unused t
