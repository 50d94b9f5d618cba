-- ===== src/TcpConnection/Sending.antt =====
-- `sendInThread` of matelib/TcpConnection.cc: the bytes written and the bytes pending.
use matelib.Prelude.{
  ℕ, ◌-◌, ◌≤◌, ◌<◌, ◌≡◌, ◌≢◌, refl, sym, ap, ◌∙◌, ◌⊎◌, inl, inr, Bool, true, false, not, ◌&&◌, List,
  [], ◌∷◌, ◌++◌, some, arith, ltb, ◌==◌, Bool-cases, length, take, drop, append_assoc, append-nil,
  take-append-drop, length-drop, ltb→lt, ltb_false→le, ==→eq,
}
use matelib.Prelude.Slices.{drop_all}
use matelib.Buffer.{readable_bytes}
use matelib.Buffer.Contents.{Holds, readable_bytes-Holds}
use matelib.Buffer.Grow.{append-Holds}
use matelib.Channel.{is_writing, enable_writing}
use matelib.TcpConnection.{
  ConnectionState, connecting, connected, disconnecting, disconnected, TcpConnection, WriteResult,
  wrote, would_block, broken_pipe, other_error, set_channel, is_state, wrote_of, keep_rest,
  tries_write, after_write, send_in_thread,
}

abbrev pub is_null : List ℕ → Bool
is_null [] = true
is_null (x ∷ xs) = false

-- The output buffer holds `pending`, and until the connection is down the channel reports that it
-- can be written exactly while bytes are pending.
pub record IsSound (c : TcpConnection) (pending : List ℕ) : Type 0 where
  pub holds : Holds c.output_buffer pending
  pub reports : (c.state ≡ disconnected) ⊎ (is_writing c.channel ≡ not (is_null pending))

pub null_of_length : (xs : List ℕ) → length xs ≡ 0 → is_null xs ≡ true
null_of_length [] h = refl
null_of_length (x ∷ xs) h = absurd (omega arith)

not_null_append : (xs ys : List ℕ) → 0 < length ys → is_null (xs ++ ys) ≡ false
not_null_append [] [] h = absurd (omega arith)
not_null_append [] (y ∷ ys) h = refl
not_null_append (x ∷ xs) ys h = refl

pub sub_self : (m n : ℕ) → (m == n) ≡ true → (m - n == 0) ≡ true
sub_self m n h = ground arith

pub sub_pos : (m n : ℕ) → n ≤ m → (m == n) ≡ false → (m - n == 0) ≡ false
sub_pos m n le h = ground arith

pub null_false_of_length : (xs : List ℕ) → 0 < length xs → is_null xs ≡ false
null_false_of_length [] h = absurd (omega arith)
null_false_of_length (x ∷ xs) h = refl

keep_rest-IsSound :
    (c : TcpConnection) (pending rest : List ℕ)
    → IsSound c pending
    → 0 < length rest
    → (c' : TcpConnection) × (keep_rest c rest ≡ some c')
      × IsSound c' (pending ++ rest)
      × (c'.written ≡ c.written)
      × (c'.state ≡ c.state)
unfolding keep_rest enable_writing
keep_rest-IsSound c pending rest s more =
    let (b, e, h) = append-Holds rest s.holds in
    let c₁ : TcpConnection = record c { output_buffer = b } in
    elim (Bool-cases (is_writing c.channel)) [
      | inl on ↦ (
        c₁,
        rw (e, on),
        record { holds = h; reports = inr (on ∙ ap not (sym (not_null_append pending rest more))) },
        refl,
        refl,
      )
      | inr off ↦ (
        set_channel c₁ (enable_writing c.channel),
        rw (e, off),
        record { holds = h; reports = inr (ap not (sym (not_null_append pending rest more))) },
        refl,
        refl,
      )
    ]

-- Nothing is overtaken: either nothing is written now, or nothing was pending.
in_order :
    (written pending message : List ℕ) (n : ℕ)
    → (n ≡ 0) ⊎ (pending ≡ [])
    → (written ++ take n message) ++ (pending ++ drop n message) ≡ (written ++ pending) ++ message
in_order written pending message n (inl e) =
    rw (e, append-nil written) (sym (append_assoc written pending message))
in_order written pending message n (inr e) =
    rw (e, append-nil written)
      (append_assoc written (take n message) (drop n message)
        ∙ ap (◌++◌ written) (take-append-drop n message))

-- The first `n` bytes are written and the rest waits behind what is pending; if bytes are pending
-- already, none are written.
after_write-IsSound :
    (c : TcpConnection) (pending message : List ℕ) (n : ℕ)
    → IsSound c pending
    → n ≤ length message
    → (n ≡ 0) ⊎ (pending ≡ [])
    → (c' : TcpConnection) × (pending' : List ℕ) × (after_write c message (n, false) ≡ some c')
      × IsSound c' pending'
      × (c'.written ++ pending' ≡ (c.written ++ pending) ++ message)
      × (c'.state ≡ c.state)
unfolding after_write
after_write-IsSound c pending message n s le order =
    let c₁ : TcpConnection = record c { written = c.written ++ take n message } in
    let stream = in_order c.written pending message n order in
    elim (Bool-cases (ltb 0 (length message - n))) [
      | inl more ↦
          let rest : 0 < length (drop n message) =
            omega (arith, length-drop n message, ltb→lt _ _ more) in
          let (c', e, s', w, st) =
            keep_rest-IsSound c₁ pending (drop n message)
              (record { holds = s.holds; reports = s.reports }) rest in
          (
            c',
            pending ++ drop n message,
            rw (more, e),
            s',
            ap (λ (t : List ℕ). t ++ (pending ++ drop n message)) w ∙ stream,
            st,
          )
      | inr all ↦
          let nothing : drop n message ≡ [] =
            drop_all message n (omega (arith, ltb_false→le _ _ all)) in
          (
            c₁,
            pending,
            rw all,
            record { holds = s.holds; reports = s.reports },
            ap (◌++◌ (c.written ++ take n message))
                  (sym (append-nil pending) ∙ ap (◌++◌ pending) (sym nothing))
                ∙ stream,
            refl,
          )
    ]

-- What the kernel may answer to a write of `len` bytes.
abbrev pub Fits : WriteResult → ℕ → Type 0
Fits (wrote n) len = n ≤ len
Fits _ len = Unit {0}

abbrev pub breaks : WriteResult → Bool
breaks broken_pipe = true
breaks _ = false

null_pending : (pending : List ℕ) (n : ℕ) → n ≡ length pending → (n == 0) ≡ true → pending ≡ []
null_pending [] n e h = refl
null_pending (x ∷ xs) n e h = absurd (omega (arith, ==→eq _ _ h, e))

-- Let the output buffer hold `pending`, with write events asked for exactly while it is not
-- empty, on a connection that is not down, and let the kernel take at most the whole message
-- without EPIPE. Then `send_in_thread` returns, what is written and what is pending afterwards
-- are together what they were before with the message behind them, so no byte is lost, repeated
-- or overtaken, and the invariant and the state are kept.
pub send_in_thread-stream :
    (c : TcpConnection) (pending message : List ℕ) (result : WriteResult)
    → IsSound c pending
    → c.state ≢ disconnected
    → Fits result (length message)
    → breaks result ≡ false
    → (c' : TcpConnection) × (pending' : List ℕ) × (send_in_thread c message result ≡ some c')
      × IsSound c' pending'
      × (c'.written ++ pending' ≡ (c.written ++ pending) ++ message)
      × (c'.state ≡ c.state)
unfolding send_in_thread
send_in_thread-stream c pending message result s up fits ok = elim (Bool-cases (tries_write c)) [
  | inl tries ↦
      let none_left : pending ≡ [] =
        null_pending pending (readable_bytes c.output_buffer) (readable_bytes-Holds s.holds)
          (both_right (not (is_writing c.channel)) (readable_bytes c.output_buffer == 0) tries) in
      let (n, bound, e) = fitting result (length message) fits ok in
      let (c', p', q, s', w, st) =
        after_write-IsSound c pending message n s bound (inr none_left) in
      (c', p', rw (not_down c.state up, tries, e) q, s', w, st)
  | inr waits ↦
      let (c', p', q, s', w, st) =
        after_write-IsSound c pending message 0 s (omega arith) (inl refl) in
      (c', p', rw (not_down c.state up, waits) q, s', w, st)
]
  where
    both_right : (a b : Bool) → (a && b) ≡ true → b ≡ true
    both_right true b h = h
    both_right false b h = cc

    not_down : (st : ConnectionState) → st ≢ disconnected → is_state st disconnected ≡ false
    not_down connecting h = refl
    not_down connected h = refl
    not_down disconnecting h = refl
    not_down disconnected h = absurd (h refl)

    fitting :
        (r : WriteResult) (len : ℕ)
        → Fits r len
        → breaks r ≡ false
        → (n : ℕ) × (n ≤ len) × (wrote_of r ≡ (n, false))
    fitting (wrote n) len f b = (n, f, refl)
    fitting would_block len f b = (0, omega arith, refl)
    fitting broken_pipe len f b = cc
    fitting other_error len f b = (0, omega arith, refl)
