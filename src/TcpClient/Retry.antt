-- ===== src/TcpClient/Retry.antt =====
-- How often `TcpClient::connect` of matelib/TcpClient.cc tries, and what becomes of the socket.
use matelib.Prelude.{
  if◌then◌else◌, ℕ, zero, suc, ◌+◌, ◌≤◌, ◌<◌, ◌≡◌, refl, ◌∙◌, Bool, true, false, List, [], ◌∷◌,
  ◌++◌, arith, lt→ltb, le→ltb_false,
}
use matelib.TcpConnection.{connection_established, connected, is_state}
use matelib.TcpClient.{
  on_connection, init_connection, up, disconnected, ConnectResult, done, again, fatal, Call,
  connect_socket, close_socket, retry_after, destroyed, connection_callback, message_callback,
  cleanup_callback, connect_error, Return, socket, retrying, failed, TcpClient, max_retry_times,
  emit, emit_if, give_up, connect_with, connect, destroy,
}

-- What becomes of a call of `connect`, with what its retry becomes.
abbrev pub continue : TcpClient × Return → TcpClient × Return → TcpClient × Return
continue (c, retrying) rest = rest
continue (c, socket) rest = (c, socket)
continue (c, failed) rest = (c, failed)

-- The timer of each retry calls `connect` again; the kernel's `k`th answer is `results k`.
abbrev pub tries : (ℕ → ConnectResult) → ℕ → ℕ → TcpClient → TcpClient × Return
tries results zero k c = (c, retrying)
tries results (suc fuel) k c =
    let called = connect c (results k) in continue called (tries results fuel (suc k) called.0)

-- What the first of `n` answers that is no reason to try again says.
abbrev pub outcome_of : ConnectResult → Return → Return
outcome_of done rest = socket
outcome_of again rest = rest
outcome_of fatal rest = failed

abbrev pub outcome : (ℕ → ConnectResult) → ℕ → ℕ → Return
outcome results zero k = failed
outcome results (suc n) k = outcome_of (results k) (outcome results n (suc k))

-- How often a list of calls asks for a connection, and closes the socket.
abbrev pub dials : List Call → ℕ
dials [] = 0
dials (connect_socket ∷ calls) = suc (dials calls)
dials (_ ∷ calls) = dials calls

abbrev pub closes : List Call → ℕ
closes [] = 0
closes (close_socket ∷ calls) = suc (closes calls)
closes (_ ∷ calls) = closes calls

abbrev pub closes_for : Return → ℕ
closes_for failed = 1
closes_for _ = 0

-- The end of the tries: the answer, one call of `close` if it is a failure, and a bound on the
-- calls of `connect`.
pub record Ends (c : TcpClient) (n : ℕ) (answer : Return) (end : TcpClient × Return) : Type 0 where
  pub answers : end.1 ≡ answer
  pub closed : closes end.0.calls ≡ closes c.calls + closes_for answer
  pub dialled : dials end.0.calls ≤ dials c.calls + n

-- One more call.
dials-emit :
    (calls : List Call) (call : Call)
    → dials (calls ++ (call ∷ [])) ≡ dials calls + dials (call ∷ [])
dials-emit [] call = omega arith
dials-emit (connect_socket ∷ calls) call = omega (arith, dials-emit calls call)
dials-emit (close_socket ∷ calls) call = dials-emit calls call
dials-emit (retry_after d ∷ calls) call = dials-emit calls call
dials-emit (destroyed ∷ calls) call = dials-emit calls call
dials-emit (connection_callback ∷ calls) call = dials-emit calls call
dials-emit (message_callback ∷ calls) call = dials-emit calls call
dials-emit (cleanup_callback ∷ calls) call = dials-emit calls call

closes-emit :
    (calls : List Call) (call : Call)
    → closes (calls ++ (call ∷ [])) ≡ closes calls + closes (call ∷ [])
closes-emit [] call = omega arith
closes-emit (connect_socket ∷ calls) call = closes-emit calls call
closes-emit (close_socket ∷ calls) call = omega (arith, closes-emit calls call)
closes-emit (retry_after d ∷ calls) call = closes-emit calls call
closes-emit (destroyed ∷ calls) call = closes-emit calls call
closes-emit (connection_callback ∷ calls) call = closes-emit calls call
closes-emit (message_callback ∷ calls) call = closes-emit calls call
closes-emit (cleanup_callback ∷ calls) call = closes-emit calls call

-- Giving up closes the socket, and does not dial.
give_up-Ends :
    (c c' : TcpClient) (n : ℕ)
    → closes c'.calls ≡ closes c.calls
    → dials c'.calls ≤ dials c.calls + n
    → Ends c n failed (give_up c')
give_up-Ends c c' n same few = by_callback c'.has_connection_callback refl
  where
    after : TcpClient
    after = record (emit c' close_socket) { state = connect_error }

    by_callback :
        (b : Bool)
        → c'.has_connection_callback ≡ b
        → Ends c n failed (emit_if b after connection_callback, failed)
    by_callback true e = record {
      answers = refl;
      closed = omega (
        arith,
        closes-emit (c'.calls ++ (close_socket ∷ [])) connection_callback,
        closes-emit c'.calls close_socket,
      );
      dialled = omega (
        arith,
        dials-emit (c'.calls ++ (close_socket ∷ [])) connection_callback,
        dials-emit c'.calls close_socket,
      );
    }
    by_callback false e = record {
      answers = refl;
      closed = omega (arith, closes-emit c'.calls close_socket);
      dialled = omega (arith, dials-emit c'.calls close_socket);
    }

-- A connection that is made calls back, and neither dials nor closes.
connected-Ends :
    (c c' : TcpClient) (n : ℕ)
    → closes c'.calls ≡ closes c.calls
    → dials c'.calls ≤ dials c.calls + n
    → Ends c n socket (init_connection c', socket)
unfolding init_connection on_connection
connected-Ends c c' n same few = by_callback c'.has_connection_callback
  where
    after : TcpClient
    after = record c' {
      connect_times = 0;
      conn = connection_established c'.conn;
      state =
          if is_state (connection_established c'.conn).state connected then up else disconnected;
    }

    by_callback : (b : Bool) → Ends c n socket (emit_if b after connection_callback, socket)
    by_callback true = record {
      answers = refl;
      closed = omega (arith, closes-emit c'.calls connection_callback);
      dialled = omega (arith, dials-emit c'.calls connection_callback);
    }
    by_callback false = record { answers = refl; closed = omega arith; dialled = omega arith }

-- What a call of `connect` comes to while tries are left.
connect_left :
    (c : TcpClient) (result : ConnectResult)
    → c.connect_times < max_retry_times
    → connect c result
      ≡ connect_with (emit (record c { connect_times = suc c.connect_times }) connect_socket) result
unfolding connect
connect_left c result h = rw (lt→ltb c.connect_times max_retry_times h)

connect_spent :
    (c : TcpClient) (result : ConnectResult)
    → max_retry_times ≤ c.connect_times
    → connect c result ≡ give_up (record c { connect_times = suc c.connect_times })
unfolding connect
connect_spent c result h = rw (le→ltb_false c.connect_times max_retry_times h)

-- A client that has made some of its ten tries, whose retry timer calls `connect` again each
-- time, whatever the kernel answers: the tries end after at most as many further calls as are
-- left and one more, with the answer of the first try that is no reason to try again, or with a
-- failure if there is none among those left; `connect` of the kernel is called at most once for
-- each try that was left, and the socket is closed once if it ends in a failure and not at all
-- otherwise.
pub tries-Ends :
    (results : ℕ → ConnectResult) (n k : ℕ) (c : TcpClient)
    → c.connect_times + n ≡ max_retry_times
    → Ends c n (outcome results n k) (tries results (suc n) k c)
unfolding connect_with
tries-Ends results zero k c h =
    rw (connect_spent c (results k) (omega arith))
      (give_up-Ends c (record c { connect_times = suc c.connect_times }) 0 refl (omega arith))
tries-Ends results (suc n) k c h =
    rw (connect_left c (results k) (omega arith))
      (by_answer (tries-Ends results n (suc k) waiting (omega arith)) (results k))
  where
    dialled : TcpClient
    dialled = emit (record c { connect_times = suc c.connect_times }) connect_socket

    waiting : TcpClient
    waiting = (connect_with dialled again).0

    by_answer :
        Ends waiting n (outcome results n (suc k)) (tries results (suc n) (suc k) waiting)
        → (result : ConnectResult)
        → Ends c (suc n) (outcome_of result (outcome results n (suc k))) (
            continue
              (connect_with dialled result)
              (tries results (suc n) (suc k) (connect_with dialled result).0))
    by_answer ends done =
        connected-Ends c dialled (suc n) (closes-emit c.calls connect_socket ∙ omega arith)
          (omega (arith, dials-emit c.calls connect_socket))
    by_answer ends again = record {
      answers = ends.answers;
      closed = omega (
        arith,
        ends.closed,
        closes-emit dialled.calls (retry_after c.retry_delay_ms),
        closes-emit c.calls connect_socket,
      );
      dialled = omega (
        arith,
        ends.dialled,
        dials-emit dialled.calls (retry_after c.retry_delay_ms),
        dials-emit c.calls connect_socket,
      );
    }
    by_answer ends fatal =
        give_up-Ends c dialled (suc n) (closes-emit c.calls connect_socket ∙ omega arith)
          (omega (arith, dials-emit c.calls connect_socket))

-- The fault of the failed `connect`: if `connect` is called after ten tries, the socket is
-- closed by it, and a second time when the client with its connection is destroyed.
pub connect_failed-destroy :
    (c : TcpClient) (result : ConnectResult)
    → max_retry_times ≤ c.connect_times
    → closes (destroy (connect c result).0).calls ≡ closes c.calls + 2
unfolding destroy
connect_failed-destroy c result h =
    let c' = record c { connect_times = suc c.connect_times } in
    let ends = give_up-Ends c c' 0 refl (omega arith) in
    rw (connect_spent c result h)
      (closes-emit (give_up c').0.calls close_socket ∙ omega (arith, ends.closed))
