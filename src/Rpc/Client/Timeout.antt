-- ===== src/Rpc/Client/Timeout.antt =====
-- The calls of rpc/RpcClient.h that fail, and those that come back.
use matelib.Prelude.{
  ℕ, zero, suc, ◌<◌, ◌≡◌, ◌≢◌, refl, ap, ◌∙◌, true, false, List, [], ◌∷◌, ◌++◌, Option, none, some,
  arith, length, ◌==◌, ◌>>=◌, bind_assoc, ==_refl, ne→==_false,
}
use matelib.Buffer.Contents.{Holds, peek_all-Holds, readable_bytes-Holds}
use matelib.Buffer.Whole.{read_fd-Holds, read_fd-error}
use matelib.Rpc.Serializer.{Serializer, Item, text, input_item, package_args}
use matelib.Rpc.Serializer.Packed.{items_bytes, AllPackable, clear_all-Clears, package_args-Extends}
use matelib.Rpc.Serializer.RoundTrip.{Gets}
use matelib.Rpc.Value.{Value, recv_timeout, fresh, read_value}
use matelib.Rpc.Client.{RpcClient, Called, timed_out, some_read, accept, receive, net_call, call}

-- The client writes exactly `bytes`, comes back with `val` and keeps its state; nothing is left in
-- its serializer.
pub record Comes (c : RpcClient) (bytes : List ℕ) (val : Value) (made : Option Called)
    : Type 0 where
  pub called : Called
  pub returns : made ≡ some called
  pub writes : called.writes ≡ bytes ∷ []
  pub gives : called.value ≡ val
  pub same_state : called.client.state_code ≡ c.state_code
  pub cleared : Holds called.client.serializer.stream_buffer []
  pub same_order : called.client.serializer.byte_order ≡ c.serializer.byte_order

some_read_pos : (n : ℕ) → 0 < n → some_read (some n) ≡ true
some_read_pos zero h = absurd (omega arith)
some_read_pos (suc n) h = refl

-- The request is written whole, and the answer that arrives can be read.
pub net_call-Comes :
    (c : RpcClient) (raw : Item) (bytes got left : List ℕ) (val : Value)
    → Holds c.serializer.stream_buffer bytes
    → (c.state_code == recv_timeout) ≡ false
    → 0 < length got
    → (val.state_code == recv_timeout) ≡ false
    → ((s : Serializer)
        → Holds s.stream_buffer got
        → s.byte_order ≡ c.serializer.byte_order
        → Gets s val left (read_value s (fresh raw)))
    → Comes c bytes val (net_call c raw (some (length bytes)) (some got))
unfolding net_call receive accept
net_call-Comes c raw bytes got left val h alive more fine reading =
    let (s₁, e₁, h₁, o₁) = clear_all-Clears c.serializer h in
    let (b, e₂, h₂) = read_fd-Holds got h₁ in
    let (s₃, e₃, h₃, o₃) = reading (record s₁ { stream_buffer = b }) h₂ o₁ in
    let (s₄, e₄, h₄, o₄) = clear_all-Clears s₃ h₃ in
    record {
      called = record {
        value = val;
        client = record { state_code = c.state_code; serializer = s₄ };
        writes = bytes ∷ [];
      };
      returns = rw (
        alive,
        e₁,
        peek_all-Holds h,
        readable_bytes-Holds h,
        ==_refl (length bytes),
        e₂,
        some_read_pos (length got) more,
        e₃,
        e₄,
        fine,
      );
      writes = refl;
      gives = refl;
      same_state = refl;
      cleared = h₄;
      same_order = o₄ ∙ o₃ ∙ o₁;
    }

-- The call fails: it comes back with a timeout, and so will every later one.
pub record Fails (c : RpcClient) (writes : List (List ℕ)) (left : List ℕ) (made : Option Called)
    : Type 0 where
  pub called : Called
  pub returns : made ≡ some called
  pub writes_all : called.writes ≡ writes
  pub code : called.value.state_code ≡ recv_timeout
  pub state : called.client.state_code ≡ recv_timeout
  pub holds : Holds called.client.serializer.stream_buffer left

-- What the socket does wrong: fewer bytes are written, or an error or the end is read.
pub data Broken (n : ℕ) : Option ℕ → Option (List ℕ) → Type 0 where
  write_error : (got : Option (List ℕ)) → Broken n none got
  write_short : (m : ℕ) (got : Option (List ℕ)) → m ≢ n → Broken n (some m) got
  read_error : Broken n (some n) none
  read_end : Broken n (some n) (some [])

module _ (c : RpcClient) (raw : Item) (bytes : List ℕ)
    (h : Holds c.serializer.stream_buffer bytes) where
  Fails-timed_out :
      (s : Serializer) {made : Option Called}
      → Holds s.stream_buffer []
      → made ≡ some (timed_out (record c { serializer = s }) raw (bytes ∷ []))
      → Fails c (bytes ∷ []) [] made
  Fails-timed_out s held e = record {
    called = timed_out (record c { serializer = s }) raw (bytes ∷ []);
    returns = e;
    writes_all = refl;
    code = refl;
    state = refl;
    holds = held;
  }

  -- A client that has not timed out, with a request in its serializer: if fewer bytes are
  -- written than there are, or an error or the end of the stream is read, `net_call` gives the
  -- code of a timeout, has handed the request to `write` once, empties the serializer and
  -- keeps the client in the state of a timeout.
  pub net_call-Fails :
      {wrote : Option ℕ} {got : Option (List ℕ)}
      → (c.state_code == recv_timeout) ≡ false
      → Broken (length bytes) wrote got
      → Fails c (bytes ∷ []) [] (net_call c raw wrote got)
  unfolding net_call receive
  net_call-Fails alive (write_error got) =
      let (s, e, held, _) = clear_all-Clears c.serializer h in
      Fails-timed_out s held (rw (alive, e, peek_all-Holds h))
  net_call-Fails alive (write_short m got ne) =
      let (s, e, held, _) = clear_all-Clears c.serializer h in
      Fails-timed_out s held
        (rw (alive, e, peek_all-Holds h, readable_bytes-Holds h, ne→==_false m (length bytes) ne))
  net_call-Fails alive read_error =
      let (s, e, held, _) = clear_all-Clears c.serializer h in
      Fails-timed_out s held (
        rw (
          alive,
          e,
          peek_all-Holds h,
          readable_bytes-Holds h,
          ==_refl (length bytes),
          read_fd-error s.stream_buffer,
        ))
  net_call-Fails alive read_end =
      let (s, e, held, _) = clear_all-Clears c.serializer h in
      let (b, e', held') = read_fd-Holds [] held in
      Fails-timed_out (record s { stream_buffer = b }) held'
        (rw (alive, e, peek_all-Holds h, readable_bytes-Holds h, ==_refl (length bytes), e'))

-- `call` packs the name and the arguments as one tuple.
pub call-package_args :
    (c : RpcClient) (name : List ℕ) (args : List Item) (raw : Item) (wrote : Option ℕ)
    (got : Option (List ℕ)) {s : Serializer}
    → package_args c.serializer (text name ∷ args) ≡ some s
    → call c name args raw wrote got ≡ net_call (record c { serializer = s }) raw wrote got
unfolding call package_args input_item
call-package_args c name args raw wrote got {s} e =
    bind_assoc (input_item c.serializer (text name)) (λ s₁. package_args s₁ args) after
    ∙ ap (λ (m : Option Serializer). m >>= after) e
  where
    after : Serializer → Option Called
    after s₁ = net_call (record c { serializer = s₁ }) raw wrote got

-- A client in the state of a timeout: every call with packable arguments, whatever the socket
-- would do, hands nothing to `write`, gives the code of a timeout and keeps that state; the
-- request is appended to what the serializer holds and stays there.
pub call-timed_out :
    (c : RpcClient) (kept name : List ℕ) (args : List Item) (raw : Item) (wrote : Option ℕ)
    (got : Option (List ℕ))
    → Holds c.serializer.stream_buffer kept
    → c.state_code ≡ recv_timeout
    → AllPackable (text name ∷ args)
    → Fails c []
        (kept ++ items_bytes c.serializer.byte_order (text name ∷ args))
        (call c name args raw wrote got)
unfolding net_call
call-timed_out c kept name args raw wrote got h dead fits =
    let (s, e, held, _) = package_args-Extends c.serializer kept (text name ∷ args) h fits in
    let ends = call-package_args c name args raw wrote got e in
    record {
      called = timed_out (record c { serializer = s }) raw [];
      returns = ends ∙ rw dead refl;
      writes_all = refl;
      code = refl;
      state = refl;
      holds = held;
    }
