-- ===== src/TcpClient/Tests.antt =====
-- A client whose first two tries are to be repeated, and one that has tried ten times.
use matelib.Prelude.{ℕ, zero, suc, ◌≡◌, arith}
use matelib.TcpConnection.Threads
use matelib.TcpClient.{ConnectResult, done, again, fatal, socket, TcpClient, make, connect, destroy}
use matelib.TcpClient.Retry.{tries, closes, Ends, tries-Ends, connect_failed-destroy}

abbrev client : TcpClient
client = make (Threads.fresh 5) 500

abbrev third_time : ℕ → ConnectResult
third_time zero = again
third_time (suc zero) = again
third_time (suc (suc k)) = done

tries-Ends_example : Ends client 10 socket (tries third_time 11 0 client)
tries-Ends_example = tries-Ends third_time 10 0 client (omega arith)

abbrev spent : TcpClient
spent = record client { connect_times = 10 }

connect_failed-destroy_example : closes (destroy (connect spent fatal).0).calls ≡ 2
connect_failed-destroy_example = connect_failed-destroy spent fatal (omega arith)
