-- ===== src/TcpConnection.antt =====
-- matelib/TcpConnection.h and matelib/TcpConnection.cc: one TCP connection in its loop's thread.
-- What the kernel answers to a read or a write is an argument; `none` is a failed assert.
pub mod Sending
pub mod Draining
pub mod Closing
pub mod Threads
mod Tests
use matelib.Prelude.{
  ℕ, zero, suc, ◌+◌, ◌-◌, Bool, true, false, not, ◌&&◌, ◌||◌, List, [], ◌∷◌, ◌++◌, Option, none,
  some, ◌>>=◌, ◌>>◌, assert, ltb, ◌==◌, if◌then◌else◌, length, take, drop,
}
use matelib.Buffer.{Buffer, append, retrieve, readable_bytes, peek, read_fd, retrieve_all_as_string}
use matelib.Channel.{
  Channel, Events, is_writing, is_none_event, enable_reading, enable_writing, disable_writing,
  disable_all,
}

pub data ConnectionState : Type 0 where
  connecting connected disconnecting disconnected : ConnectionState

-- The calls that the connection makes: on its channel's poller, its socket and its owner.
pub data Call : Type 0 where
  update : Events → Call
  remove : Call
  shutdown_write : Call
  connection_callback : Bool → Call
  message_callback : Call
  cleanup_callback : Call

-- `written` records the bytes that the kernel has taken, `calls` the calls, in order.
pub record TcpConnection : Type 0 where
  pub state : ConnectionState
  pub channel : Channel
  pub input_buffer : Buffer
  pub output_buffer : Buffer
  pub written : List ℕ
  pub calls : List Call

-- What `write` returns.
pub data WriteResult : Type 0 where
  wrote : ℕ → WriteResult
  would_block : WriteResult
  broken_pipe : WriteResult
  other_error : WriteResult

abbrev pub emit : TcpConnection → Call → TcpConnection
emit c call = record c { calls = c.calls ++ (call ∷ []) }

-- A change of the channel's events, with its `update()`.
abbrev pub set_channel : TcpConnection → Channel → TcpConnection
set_channel c ch = emit (record c { channel = ch }) (update ch.events)

abbrev pub is_state : ConnectionState → ConnectionState → Bool
is_state connecting connecting = true
is_state connected connected = true
is_state disconnecting disconnecting = true
is_state disconnected disconnected = true
is_state _ _ = false

-- How many bytes were written, and whether the connection is broken.
abbrev pub wrote_of : WriteResult → ℕ × Bool
wrote_of (wrote n) = (n, false)
wrote_of would_block = (0, false)
wrote_of broken_pipe = (0, true)
wrote_of other_error = (0, false)

-- The rest goes into the output buffer, and the channel is to report when more can be written.
unfoldable pub keep_rest : TcpConnection → List ℕ → Option TcpConnection
keep_rest c rest = do
  b ← append c.output_buffer rest
  let c' = record c { output_buffer = b }
  some (if is_writing c.channel then c' else set_channel c' (enable_writing c.channel))

-- A direct write is tried only if nothing is waiting already.
abbrev pub tries_write : TcpConnection → Bool
tries_write c = not (is_writing c.channel) && readable_bytes c.output_buffer == 0

unfoldable pub after_write : TcpConnection → List ℕ → ℕ × Bool → Option TcpConnection
unfolding keep_rest
after_write c message (n, error) =
    let c' = record c { written = c.written ++ take n message } in
    if not error && ltb 0 (length message - n) then keep_rest c' (drop n message) else some c'

pub send_in_thread : TcpConnection → List ℕ → WriteResult → Option TcpConnection
unfolding after_write
send_in_thread c message result =
    if is_state c.state disconnected
    then some c
    else if tries_write c
    then after_write c message (wrote_of result)
    else after_write c message (0, false)

-- `send` from the loop's thread.
pub send : TcpConnection → List ℕ → WriteResult → Option TcpConnection
send c message result =
    if is_state c.state connected then send_in_thread c message result else some c

unfoldable pub shutdown_in_loop : TcpConnection → TcpConnection
shutdown_in_loop c = if is_writing c.channel then c else emit c shutdown_write

pub shutdown : TcpConnection → TcpConnection
unfolding shutdown_in_loop
shutdown c =
    if is_state c.state connected then shutdown_in_loop (record c { state = disconnecting }) else c

pub connection_established : TcpConnection → TcpConnection
connection_established c =
    emit (set_channel (record c { state = connected }) (enable_reading c.channel))
      (connection_callback true)

-- `Channel::remove` asserts that no event is asked for.
remove_channel : TcpConnection → Option TcpConnection
remove_channel c = do assert (is_none_event c.channel); some (emit c remove)

pub connection_destroyed : TcpConnection → Option TcpConnection
unfolding remove_channel
connection_destroyed c =
    if is_state c.state connected
    then remove_channel (
        emit (set_channel (record c { state = disconnected }) (disable_all c.channel))
          (connection_callback false))
    else remove_channel c

pub handle_close : TcpConnection → Option TcpConnection
handle_close c = do
  assert (is_state c.state connected || is_state c.state disconnecting)
  some (
      emit
        (emit (set_channel (record c { state = disconnected }) (disable_all c.channel))
          (connection_callback false))
        cleanup_callback)

-- `handleError` only logs.
unfoldable pub handle_error : TcpConnection → TcpConnection
handle_error c = c

-- The number of bytes read decides; an error leaves the connection as it is.
read_done : TcpConnection → Option ℕ → Option TcpConnection
unfolding handle_error
read_done c none = some (handle_error c)
read_done c (some zero) = handle_close c
read_done c (some (suc n)) = some (emit c message_callback)

pub handle_read : TcpConnection → Option (List ℕ) → Option TcpConnection
unfolding read_done
handle_read c arrived = do
  (n, b) ← read_fd c.input_buffer arrived
  read_done (record c { input_buffer = b }) n

-- The buffer has been emptied: no more writing, and the shutdown that was waiting for it.
unfoldable pub drained : TcpConnection → TcpConnection
drained c =
    let c' = set_channel c (disable_writing c.channel) in
    if is_state c.state disconnecting then shutdown_in_loop c' else c'

-- `handleWrite`: the kernel takes `n` bytes, 0 stands for an error too.
pub handle_write : TcpConnection → ℕ → Option TcpConnection
unfolding drained
handle_write c n =
    if is_writing c.channel
    then (if ltb 0 n
        then (do
          b ← retrieve c.output_buffer n
          let c' = record c { output_buffer = b; written = c.written ++ peek c.output_buffer n }
          some (if readable_bytes b == 0 then drained c' else c'))
        else some c)
    else some c
