-- ===== src/TcpConnection/Draining.antt =====
-- `handleWrite` of matelib/TcpConnection.cc: pending bytes, when the socket has room again.
use matelib.Prelude.{
  ℕ, ◌-◌, ◌≤◌, ◌<◌, ◌≡◌, refl, sym, ap, ◌∙◌, inl, inr, true, false, not, List, [], ◌∷◌, ◌++◌, some,
  arith, ◌==◌, if◌then◌else◌, Bool-cases, length, take, drop, append_assoc, append-nil,
  take-append-drop, length-drop, lt→ltb, ==→eq,
}
use matelib.Buffer.{readable_bytes, peek}
use matelib.Buffer.Contents.{readable_bytes-Holds, peek-Holds}
use matelib.Buffer.Read.{retrieve-Holds}
use matelib.Channel.{is_writing, disable_writing}
use matelib.TcpConnection.{
  disconnecting, Call, update, shutdown_write, TcpConnection, is_state, shutdown_in_loop, drained,
  handle_write,
}
use matelib.TcpConnection.Sending.{IsSound, null_of_length, sub_self, sub_pos, null_false_of_length}

-- The calls with which an emptied buffer is left: no more write events, and the shutdown that was
-- asked for while bytes were pending.
abbrev pub drain_calls : TcpConnection → List Call
drain_calls c =
    update (disable_writing c.channel).events
    ∷ (if is_state c.state disconnecting then shutdown_write ∷ [] else [])

calls-drained : (c : TcpConnection) → (drained c).calls ≡ c.calls ++ drain_calls c
unfolding drained shutdown_in_loop disable_writing
calls-drained c = elim (Bool-cases (is_state c.state disconnecting)) [
  | inl closing ↦ rw closing (append_assoc c.calls _ _)
  | inr open_ ↦ rw open_
]

drained-fields :
    (c : TcpConnection)
    → ((drained c).written ≡ c.written)
      × ((drained c).output_buffer ≡ c.output_buffer)
      × ((drained c).state ≡ c.state)
      × (is_writing (drained c).channel ≡ false)
unfolding drained shutdown_in_loop disable_writing
drained-fields c = ground arith

-- What `handleWrite` makes of `n` of the pending bytes.
pub record Written (c c' : TcpConnection) (pending : List ℕ) (n : ℕ) : Type 0 where
  pub sound : IsSound c' (drop n pending)
  pub stream : c'.written ++ drop n pending ≡ c.written ++ pending
  pub state : c'.state ≡ c.state
  pub calls : c'.calls ≡ c.calls ++ (if length pending == n then drain_calls c else [])

-- Let `pending` wait in the output buffer with write events on, and let the kernel take `n` of
-- the bytes, at least one and at most all. Then `handle_write` moves exactly these from the
-- front of the pending ones to the written ones and keeps the invariant; write events are
-- switched off, and a shutdown that waits for the last byte is made, if and only if all bytes
-- were taken.
pub handle_write-Written :
    (c : TcpConnection) (pending : List ℕ) (n : ℕ)
    → IsSound c pending
    → is_writing c.channel ≡ true
    → 0 < n
    → n ≤ length pending
    → (c' : TcpConnection) × (handle_write c n ≡ some c') × Written c c' pending n
unfolding handle_write
handle_write-Written c pending n s on some_bytes le =
    let (b, e, h) = retrieve-Holds n s.holds le in
    let taken = peek-Holds s.holds n le in
    let c₁ : TcpConnection = record c {
      output_buffer = b;
      written = c.written ++ peek c.output_buffer n;
    } in
    let stream : c₁.written ++ drop n pending ≡ c.written ++ pending =
      ap (λ (t : List ℕ). (c.written ++ t) ++ drop n pending) taken
      ∙ append_assoc c.written (take n pending) (drop n pending)
      ∙ ap (◌++◌ c.written) (take-append-drop n pending) in
    let left : readable_bytes b ≡ length pending - n =
      readable_bytes-Holds h ∙ length-drop n pending in
    elim (Bool-cases (length pending == n)) [
      | inl last ↦
          let f = drained-fields c₁ in
          (
            drained c₁,
            rw (on, lt→ltb 0 n some_bytes, e, left, sub_self (length pending) n last),
            record {
              sound = record {
                holds = rw f.1 h;
                reports = inr (
                    f.3
                    ∙ ap not (
                        sym (
                          null_of_length (drop n pending)
                            (omega (arith, length-drop n pending, ==→eq _ _ last)))));
              };
              stream = rw f.0 stream;
              state = f.2;
              calls = rw last (calls-drained c₁);
            },
          )
      | inr not_last ↦ (
        c₁,
        rw (on, lt→ltb 0 n some_bytes, e, left, sub_pos (length pending) n le not_last),
        record {
          sound = record {
            holds = h;
            reports = inr (
                on
                ∙ ap not (
                    sym (
                      null_false_of_length (drop n pending)
                        (ground (arith, length-drop n pending)))));
          };
          stream = stream;
          state = refl;
          calls = rw not_last (sym (append-nil c.calls));
        },
      )
    ]
