-- ===== src/TcpServer/Tests.antt =====
-- A server that takes in one connection.
use matelib.Prelude.{ℕ, ◌+◌, ◌≡◌, refl, true, [], ◌∷◌, some, arith}
use matelib.Prelude.Text.{codes}
use matelib.InetAddress.{InetAddress}
use matelib.EventLoopThreadPool.Turns.{running, get_next_loop-base}
use matelib.Prelude.Text.{find}
use matelib.TcpServer.{
  connection_name, Connection, established, TcpServer, make, connection, new_connection,
  handle_connection,
}
use matelib.TcpServer.Lives.{System, absent, taken_in, Reach, here, next, accepts}
use matelib.TcpServer.Accepting.{accepted, IsServing, handle_connection-IsServing}
use matelib.TcpServer.Map.{IsMapped, Reach-IsMapped}

abbrev server : TcpServer
server = make 1 0

abbrev pair_of_threads : ℕ → ℕ
pair_of_threads i = 10 + i

abbrev unused : Connection
unused = record { name = []; loop = 0; sockfd = 0 }

abbrev local : InetAddress
local = record { ip = codes "10.0.0.1"; port = 80 }

abbrev peer : InetAddress
peer = record { ip = codes "10.0.0.2"; port = 5000 }

abbrev before : System
before = record { server = server; conns = λ i. unused; phase = λ i. absent }

one-Reach :
    Reach server unused
      (taken_in before (new_connection server 5 local peer 1) server.io_thread_pool)
one-Reach = next here (
    accepts 5 local peer 1 server.io_thread_pool (omega arith)
      (get_next_loop-base server.io_thread_pool refl))

Reach-IsMapped_example :
    IsMapped (taken_in before (new_connection server 5 local peer 1) server.io_thread_pool)
Reach-IsMapped_example = Reach-IsMapped refl refl one-Reach

abbrev serving : TcpServer
serving = record (make 1 2) { started = true; io_thread_pool = running pair_of_threads 1 2 1 }

handle_connection-IsServing_example :
    let conn = accepted pair_of_threads 1 2 serving 1 5 local peer in
    (s' : TcpServer) × (handle_connection serving (connection 5 local peer)
      ≡ some (s', established conn ∷ [], []))
    × (find conn.name s'.connection_map ≡ some conn)
    × (find [] s'.connection_map ≡ find [] serving.connection_map)
    × (s'.next_conn_id ≡ 1)
    × IsServing pair_of_threads 1 2 s' 0
unfolding connection_name
handle_connection-IsServing_example =
    handle_connection-IsServing pair_of_threads 1 2 serving 1 5 local peer []
      (record { on = refl; pool = refl; in_range = omega arith }) (λ e. cc)
