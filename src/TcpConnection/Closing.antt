-- ===== src/TcpConnection/Closing.antt =====
-- Shutdown, close and destruction of a connection of matelib/TcpConnection.cc, and reading.
use matelib.Prelude.{
  ℕ, ◌≡◌, refl, ap, ◌∙◌, ◌⊎◌, inl, inr, Bool, true, false, not, ◌||◌, List, [], ◌∷◌, ◌++◌, none,
  some, arith, if◌then◌else◌, Bool-cases,
}
use matelib.Buffer.Contents.{Holds}
use matelib.Buffer.Whole.{read_fd-Holds}
use matelib.Channel.{is_writing, enable_reading, disable_all}
use matelib.TcpConnection.{
  ConnectionState, connected, disconnecting, disconnected, Call, remove, shutdown_write,
  connection_callback, message_callback, cleanup_callback, TcpConnection, emit, set_channel,
  is_state, shutdown_in_loop, shutdown, remove_channel, connection_established,
  connection_destroyed, handle_close, handle_read,
}
use matelib.TcpConnection.Sending.{IsSound, is_null}

is_connected : (st : ConnectionState) → st ≡ connected → is_state st connected ≡ true
is_connected st e = rw e

is_up :
    (st : ConnectionState)
    → (st ≡ connected) ⊎ (st ≡ disconnecting)
    → (is_state st connected || is_state st disconnecting) ≡ true
is_up st e = ground arith

-- What `shutdown` leaves alone, and what it does.
shutdown-fields :
    (c : TcpConnection)
    → c.state ≡ connected
    → ((shutdown c).written ≡ c.written)
      × ((shutdown c).output_buffer ≡ c.output_buffer)
      × ((shutdown c).channel ≡ c.channel)
      × ((shutdown c).state ≡ disconnecting)
      × ((shutdown c).calls
          ≡ (if is_writing c.channel then c.calls else c.calls ++ (shutdown_write ∷ [])))
unfolding shutdown shutdown_in_loop
shutdown-fields c e = ground arith

not_reported :
    (a b : Bool) (u v : List Call) → a ≡ not b → (if a then u else v) ≡ (if b then v else u)
not_reported a b u v h = ground arith

-- For a connected connection with `pending` in its output buffer and write events asked for
-- exactly while it is not empty, `shutdown` writes and drops no byte, sets the state
-- disconnecting and keeps the invariant; it shuts the socket down at once if nothing is pending,
-- and not yet if something is.
pub shutdown-IsSound :
    (c : TcpConnection) (pending : List ℕ)
    → IsSound c pending
    → c.state ≡ connected
    → IsSound (shutdown c) pending
      × ((shutdown c).state ≡ disconnecting)
      × ((shutdown c).written ≡ c.written)
      × ((shutdown c).calls
          ≡ (if is_null pending then c.calls ++ (shutdown_write ∷ []) else c.calls))
shutdown-IsSound c pending s e =
    let writing : is_writing c.channel ≡ not (is_null pending) = ground (arith, s.reports) in
    let (same, buffer, chan, down, made) = shutdown-fields c e in
    (
      record { holds = rw buffer s.holds; reports = inr (ap is_writing chan ∙ writing) },
      down,
      same,
      made ∙ not_reported (is_writing c.channel) (is_null pending) _ _ writing,
    )

-- What `handleClose` leaves.
abbrev pub closed : TcpConnection → TcpConnection
closed c =
    emit
      (emit (set_channel (record c { state = disconnected }) (disable_all c.channel))
        (connection_callback false))
      cleanup_callback

-- On a connection that is connected or disconnecting, `handle_close` passes its assert,
-- `connection_destroyed` then passes the assert of `Channel::remove`, and the one call that it
-- adds is the removal of the channel.
pub connection_destroyed-after_close :
    (c : TcpConnection)
    → (c.state ≡ connected) ⊎ (c.state ≡ disconnecting)
    → (c₁ : TcpConnection) × (c₂ : TcpConnection) × (handle_close c ≡ some c₁)
      × (connection_destroyed c₁ ≡ some c₂)
      × (c₂.calls ≡ c₁.calls ++ (remove ∷ []))
unfolding handle_close connection_destroyed disable_all
connection_destroyed-after_close c e =
    (closed c, emit (closed c) remove, rw (is_up c.state e), refl, refl)

-- `handleClose` runs once at most: its assert refuses a connection that is down.
pub handle_close_twice : (c c' : TcpConnection) → handle_close c ≡ some c' → handle_close c' ≡ none
unfolding handle_close
handle_close_twice c c' e = ground arith

-- The fault of `connection_destroyed`: on a connection that was established and then shut down
-- by its user, and so still reads until its peer closes, it fails the assert of
-- `Channel::remove` that the channel asks for no event.
pub destroyed_while_disconnecting :
    (c : TcpConnection) → connection_destroyed (shutdown (connection_established c)) ≡ none
unfolding connection_destroyed shutdown connection_established shutdown_in_loop enable_reading
    remove_channel
destroyed_while_disconnecting c = elim (Bool-cases c.channel.events.writable) [
  | inl on ↦ rw on
  | inr off ↦ rw off
]

-- For a connection that is connected or disconnecting with a well-formed input buffer,
-- `handle_read` with the bytes that arrived fails no assert and adds them to the input buffer;
-- with none, the end of the stream, the connection is disconnected, and with some its state is
-- as it was.
pub handle_read-Holds :
    (c : TcpConnection) (s arrived : List ℕ)
    → Holds c.input_buffer s
    → (c.state ≡ connected) ⊎ (c.state ≡ disconnecting)
    → (c' : TcpConnection) × (handle_read c (some arrived) ≡ some c')
      × Holds c'.input_buffer (s ++ arrived)
      × (c'.state ≡ (if is_null arrived then disconnected else c.state))
unfolding handle_read handle_close
handle_read-Holds c s [] h up =
    let (b, e, h') = read_fd-Holds [] h in
    (closed (record c { input_buffer = b }), rw (e, is_up c.state up), h', refl)
handle_read-Holds c s (x ∷ arrived) h up =
    let (b, e, h') = read_fd-Holds (x ∷ arrived) h in
    (emit (record c { input_buffer = b }) message_callback, rw e, h', refl)
