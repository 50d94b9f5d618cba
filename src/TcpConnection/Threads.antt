-- ===== src/TcpConnection/Threads.antt =====
-- The constructor of a connection of matelib/TcpConnection.cc, and `send` from any thread. A message
-- that another thread sends is copied, and handed to the loop as a task `sendInLoop`.
use matelib.Prelude.{
  ℕ, ◌≡◌, refl, Bool, true, false, List, [], ◌∷◌, Option, some, ◌>>=◌, if◌then◌else◌, ◌++◌, ap, ◌∙◌,
  length, append-nil,
}
use matelib.Buffer.{Buffer, empty, peek, readable_bytes, retrieve_all_as_string}
use matelib.Buffer.Contents.{Holds, peek_all-Holds}
use matelib.Buffer.Read.{retrieve_all_as_string-Holds}
use matelib.Channel.{make}
use matelib.TcpConnection.Sending.{IsSound, Fits, breaks, send_in_thread-stream}
use matelib.TcpConnection.{
  TcpConnection, WriteResult, connecting, connected, is_state, send_in_thread,
}

abbrev pub fresh : ℕ → TcpConnection
fresh sockfd = record {
  state = connecting;
  channel = record (make sockfd) {
    has_read = true;
    has_write = true;
    has_close = true;
    has_error = true;
  };
  input_buffer = empty;
  output_buffer = empty;
  written = [];
  calls = [];
}

-- `send(data, len)` and `send(message)`: the connection, and the messages handed to the loop.
pub send_message :
    Bool → TcpConnection → List ℕ → WriteResult → Option (TcpConnection × List (List ℕ))
send_message in_loop_thread c message result =
    if is_state c.state connected
    then if in_loop_thread
      then (do c' ← send_in_thread c message result; some (c', []))
      else some (c, message ∷ [])
    else some (c, [])

-- `send(buffer)`: the connection, the buffer, and the messages handed to the loop.
pub send_buffer :
    Bool → TcpConnection → Buffer → WriteResult → Option (TcpConnection × Buffer × List (List ℕ))
send_buffer in_loop_thread c buffer result =
    if is_state c.state connected
    then if in_loop_thread
      then (do
        c' ← send_in_thread c (peek buffer (readable_bytes buffer)) result
        some (c', buffer, []))
      else (do (message, buffer') ← retrieve_all_as_string buffer; some (c, buffer', message ∷ []))
    else some (c, buffer, [])

abbrev pub flat : List (List ℕ) → List ℕ
flat [] = []
flat (m ∷ ms) = m ++ flat ms

-- What `send` of a buffer with the bytes `s` does: written, waiting to be written, or on the way to
-- the loop, they come behind all that was sent before.
pub record Sent (c : TcpConnection) (pending s kept : List ℕ)
    (made : Option (TcpConnection × Buffer × List (List ℕ))) : Type 0 where
  pub conn : TcpConnection
  pub buffer : Buffer
  pub posted : List (List ℕ)
  pub waiting : List ℕ
  pub returns : made ≡ some (conn, buffer, posted)
  pub sound : IsSound conn waiting
  pub stream : (conn.written ++ waiting) ++ flat posted ≡ (c.written ++ pending) ++ s
  pub keeps : Holds buffer kept

-- On a connected connection that satisfies its invariant, with a write that does not break it,
-- `send` of a buffer loses no byte from either side: what is written, waits in the output buffer
-- or is handed to the loop is all that was sent before followed by the unread bytes of the
-- buffer. Called from another thread it empties the buffer; called from the loop's thread it
-- leaves the bytes in it.
pub send_buffer-Sent :
    (in_loop_thread : Bool) (c : TcpConnection) (buffer : Buffer) (result : WriteResult)
    (pending s : List ℕ)
    → c.state ≡ connected
    → IsSound c pending
    → Holds buffer s
    → Fits result (length s)
    → breaks result ≡ false
    → Sent c pending s
        (if in_loop_thread then s else [])
        (send_buffer in_loop_thread c buffer result)
unfolding send_buffer
send_buffer-Sent true c buffer result pending s up sound h fits ok =
    let (c', waiting, e, sound', stream, _) =
      send_in_thread-stream c pending s result sound (λ e. cc) fits ok in
    let tested : is_state c.state connected ≡ true = rw up refl in
    record {
      conn = c';
      buffer = buffer;
      posted = [];
      waiting = waiting;
      returns = rw (tested, peek_all-Holds h, e);
      sound = sound';
      stream = append-nil (c'.written ++ waiting) ∙ stream;
      keeps = h;
    }
send_buffer-Sent false c buffer result pending s up sound h fits ok =
    let (buffer', e, h') = retrieve_all_as_string-Holds h in
    let tested : is_state c.state connected ≡ true = rw up refl in
    record {
      conn = c;
      buffer = buffer';
      posted = s ∷ [];
      waiting = pending;
      returns = rw (tested, e);
      sound = sound;
      stream = ap (◌++◌ (c.written ++ pending)) (append-nil s);
      keeps = h';
    }
