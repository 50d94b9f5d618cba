-- ===== src/TcpConnection/Tests.antt =====
-- The connection's theorems at a connection with bytes pending.
use matelib.Prelude.{ℕ, ◌≡◌, refl, inr, List, [], ◌∷◌, ◌++◌, none, some, false, arith, replicate}
use matelib.Buffer.{Buffer, empty}
use matelib.Buffer.Contents.{Holds}
use matelib.Buffer.Whole.{empty-Holds}
use matelib.Channel.{Channel, make, enable_writing}
use matelib.TcpConnection.{
  connected, disconnecting, TcpConnection, wrote, would_block, send_in_thread, shutdown,
  connection_established, connection_destroyed, handle_write,
}
use matelib.TcpConnection.Threads.{Sent, send_buffer, send_buffer-Sent}
use matelib.TcpConnection.Sending.{IsSound, send_in_thread-stream}
use matelib.TcpConnection.Draining.{Written, handle_write-Written}
use matelib.TcpConnection.Closing.{shutdown-IsSound, destroyed_while_disconnecting}

-- A connection with nothing pending, and one that waits to write two bytes.
abbrev idle : TcpConnection
idle = record {
  state = connected;
  channel = make 5;
  input_buffer = empty;
  output_buffer = empty;
  written = [];
  calls = [];
}

abbrev two_bytes : Buffer
two_bytes = record {
  buffer = replicate 8 0 ++ ((7 ∷ 8 ∷ []) ++ (0 ∷ 0 ∷ []));
  read_index = 8;
  write_index = 10;
}

two_bytes-Holds : Holds two_bytes (7 ∷ 8 ∷ [])
two_bytes-Holds = record {
  pre = replicate 8 0;
  post = 0 ∷ 0 ∷ [];
  layout = refl;
  at_read = refl;
  at_write = refl;
  headroom = omega arith;
}

abbrev writing_channel : Channel
writing_channel = enable_writing (make 5)

abbrev busy : TcpConnection
busy = record idle { channel = writing_channel; output_buffer = two_bytes }

idle-IsSound : IsSound idle []
idle-IsSound = record { holds = empty-Holds; reports = inr refl }

busy-IsSound : IsSound busy (7 ∷ 8 ∷ [])
unfolding enable_writing
busy-IsSound = record { holds = two_bytes-Holds; reports = inr refl }

send_in_thread-stream_example :
    (c' : TcpConnection) × (pending' : List ℕ) × (send_in_thread idle (1 ∷ 2 ∷ 3 ∷ []) (wrote 2)
      ≡ some c')
    × IsSound c' pending'
    × (c'.written ++ pending' ≡ 1 ∷ 2 ∷ 3 ∷ [])
    × (c'.state ≡ connected)
send_in_thread-stream_example =
    send_in_thread-stream idle [] (1 ∷ 2 ∷ 3 ∷ []) (wrote 2) idle-IsSound (λ e. cc) (omega arith)
      refl

handle_write-Written_example :
    (c' : TcpConnection) × (handle_write busy 2 ≡ some c') × Written busy c' (7 ∷ 8 ∷ []) 2
unfolding enable_writing
handle_write-Written_example =
    handle_write-Written busy (7 ∷ 8 ∷ []) 2 busy-IsSound refl (omega arith) (omega arith)

shutdown-IsSound_example :
    IsSound (shutdown busy) (7 ∷ 8 ∷ [])
    × ((shutdown busy).state ≡ disconnecting)
    × ((shutdown busy).written ≡ [])
    × ((shutdown busy).calls ≡ [])
shutdown-IsSound_example = shutdown-IsSound busy (7 ∷ 8 ∷ []) busy-IsSound refl

destroyed_while_disconnecting_example :
    connection_destroyed (shutdown (connection_established idle)) ≡ none
destroyed_while_disconnecting_example = destroyed_while_disconnecting idle

send_buffer-Sent_example :
    Sent idle [] (7 ∷ 8 ∷ []) [] (send_buffer false idle two_bytes would_block)
send_buffer-Sent_example =
    send_buffer-Sent false idle two_bytes would_block [] (7 ∷ 8 ∷ []) refl idle-IsSound
      two_bytes-Holds tt refl
