-- ===== src/TcpClient.antt =====
-- matelib/TcpClient.h and matelib/TcpClient.cc: a client that connects, and tries again while it
-- cannot. What `connect` of the kernel gives is an argument; the calls of the kernel, the tasks
-- handed to the loop and the callbacks are recorded in order.
pub mod Retry
mod Tests
use matelib.Prelude.{
  ℕ, zero, suc, ◌+◌, ◌*◌, Bool, true, false, ◌&&◌, List, [], ◌∷◌, ◌++◌, Option, none, some, ◌>>=◌,
  ltb, if◌then◌else◌, replicate,
}
use matelib.Buffer.{retrieve_all}
use matelib.TcpConnection.{TcpConnection, WriteResult, connected, is_state}
use matelib.TcpConnection

pub data ClientState : Type 0 where
  disconnected up connect_error : ClientState

-- `errno` of `connect`, as the cases of the switch: connected, an error after which the connection
-- is tried again, and the others.
pub data ConnectResult : Type 0 where
  done : ConnectResult
  again : ConnectResult
  fatal : ConnectResult

pub data Call : Type 0 where
  connect_socket : Call
  close_socket : Call
  retry_after : ℕ → Call
  destroyed : Call
  connection_callback : Call
  message_callback : Call
  cleanup_callback : Call

-- What `connect` returns: the socket, 0 or -1.
pub data Return : Type 0 where
  socket retrying failed : Return

-- Which callbacks are set is part of the state.
pub record TcpClient : Type 0 where
  pub state : ClientState
  pub connect_times : ℕ
  pub retry_delay_ms : ℕ
  pub conn : TcpConnection
  pub has_connection_callback : Bool
  pub has_message_callback : Bool
  pub has_cleanup_callback : Bool
  pub calls : List Call

abbrev pub max_retry_delay_ms : ℕ
max_retry_delay_ms = 30 * 1000

abbrev pub max_retry_times : ℕ
max_retry_times = 10

abbrev pub make : TcpConnection → ℕ → TcpClient
make conn retry_delay_ms = record {
  state = disconnected;
  connect_times = 0;
  retry_delay_ms = retry_delay_ms;
  conn = conn;
  has_connection_callback = false;
  has_message_callback = false;
  has_cleanup_callback = false;
  calls = [];
}

abbrev pub emit : TcpClient → Call → TcpClient
emit c call = record c { calls = c.calls ++ (call ∷ []) }

abbrev pub emit_if : Bool → TcpClient → Call → TcpClient
emit_if set c call = if set then emit c call else c

-- `onConnection`
unfoldable pub on_connection : TcpClient → TcpClient
on_connection c =
    emit_if c.has_connection_callback
      (record c { state = if is_state c.conn.state connected then up else disconnected })
      connection_callback

-- `initConnection`, in the thread of the loop: `connectionEstablished` is called at once, and calls
-- `onConnection`.
unfoldable pub init_connection : TcpClient → TcpClient
unfolding on_connection
init_connection c =
    on_connection
      (record c { connect_times = 0; conn = TcpConnection.connection_established c.conn })

-- The delay of the next retry.
abbrev pub next_delay : ℕ → ℕ
next_delay d = if ltb 0 d && ltb d max_retry_delay_ms then d * 2 else d

-- The end of `connect`, where the connection has failed.
abbrev pub give_up : TcpClient → TcpClient × Return
give_up c = (
  emit_if c.has_connection_callback (record (emit c close_socket) { state = connect_error })
      connection_callback,
  failed,
)

-- The switch on what `connect` of the kernel gives.
unfoldable pub connect_with : TcpClient → ConnectResult → TcpClient × Return
unfolding init_connection
connect_with c done = (init_connection c, socket)
connect_with c again = (
  record (emit c (retry_after c.retry_delay_ms)) { retry_delay_ms = next_delay c.retry_delay_ms },
  retrying,
)
connect_with c fatal = give_up c

unfoldable pub connect : TcpClient → ConnectResult → TcpClient × Return
unfolding connect_with
connect c result =
    let c' = record c { connect_times = suc c.connect_times } in
    if ltb c.connect_times max_retry_times
    then connect_with (emit c' connect_socket) result
    else give_up c'

-- `onMessage`: without a callback the input is thrown away.
pub on_message : TcpClient → TcpClient
on_message c =
    if c.has_message_callback
    then emit c message_callback
    else record c { conn = record c.conn { input_buffer = retrieve_all c.conn.input_buffer } }

-- `onCleanup`
pub on_cleanup : TcpClient → TcpClient
on_cleanup c = emit (emit_if c.has_cleanup_callback c cleanup_callback) destroyed

pub send : TcpClient → List ℕ → WriteResult → Option TcpClient
send c message result = do
  conn ← TcpConnection.send c.conn message result
  some (record c { conn = conn })

pub shutdown : TcpClient → TcpClient
shutdown c = record c { state = disconnected; conn = TcpConnection.shutdown c.conn }

-- The destructors of the client and of the connection that it holds.
unfoldable pub destroy : TcpClient → TcpClient
destroy c = emit c close_socket
