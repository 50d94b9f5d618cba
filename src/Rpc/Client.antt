-- ===== src/Rpc/Client.antt =====
-- rpc/RpcClient.h: a call over the socket. What `write` returns and what `readv` delivers are
-- arguments; `none` is the result -1.
pub mod Timeout
use matelib.Prelude.{
  ℕ, zero, suc, Bool, true, false, List, [], ◌∷◌, Option, none, some, ◌>>=◌, ◌==◌, if◌then◌else◌,
}
use matelib.Prelude.Text.{codes}
use matelib.Buffer.{peek, readable_bytes, read_fd}
use matelib.Rpc.Serializer.{Serializer, make, clear_all, input_string, Item, package_args}
use matelib.Rpc.Value.{Value, success, recv_timeout, fresh, read_value}

pub record RpcClient : Type 0 where
  pub state_code : ℕ
  pub serializer : Serializer

abbrev pub connected : RpcClient
connected = record { state_code = success; serializer = make }

-- What a call returns, the client that it leaves, and the bytes that it handed to `write`.
pub record Called : Type 0 where
  pub value : Value
  pub client : RpcClient
  pub writes : List (List ℕ)

-- The end of `netCall` behind `// error`.
abbrev pub timed_out : RpcClient → Item → List (List ℕ) → Called
timed_out c raw writes = record {
  value = record (fresh raw) { state_code = recv_timeout; message = codes "recv timeout" };
  client = record c { state_code = recv_timeout };
  writes = writes;
}

-- `ret != n` and `ret <= 0`
abbrev pub all_written : Option ℕ → ℕ → Bool
all_written none n = false
all_written (some ret) n = ret == n

abbrev pub some_read : Option ℕ → Bool
some_read none = false
some_read (some zero) = false
some_read (some (suc n)) = true

-- `serializer_ >> val` and what follows.
accept : RpcClient → Item → List (List ℕ) → Option Called
accept c raw writes = do
  (val, s) ← read_value c.serializer (fresh raw)
  s' ← clear_all s
  let code = if val.state_code == recv_timeout then recv_timeout else c.state_code
  some (record {
    value = val;
    client = record { state_code = code; serializer = s' };
    writes = writes;
  })

-- `readFd` and what follows.
receive : RpcClient → Item → Option (List ℕ) → List (List ℕ) → Option Called
unfolding accept
receive c raw got writes = do
  (ret, stream) ← read_fd c.serializer.stream_buffer got
  let c' = record c { serializer = record c.serializer { stream_buffer = stream } }
  if some_read ret then accept c' raw writes else some (timed_out c' raw writes)

pub net_call : RpcClient → Item → Option ℕ → Option (List ℕ) → Option Called
unfolding receive
net_call c raw wrote got = if c.state_code == recv_timeout then some (timed_out c raw []) else (do
  let n = readable_bytes c.serializer.stream_buffer
  let bytes = peek c.serializer.stream_buffer n
  s ← clear_all c.serializer
  let c' = record c { serializer = s }
  if all_written wrote n
      then receive c' raw got (bytes ∷ [])
      else some (timed_out c' raw (bytes ∷ [])))

pub call : RpcClient → List ℕ → List Item → Item → Option ℕ → Option (List ℕ) → Option Called
unfolding net_call
call c func args raw wrote got = do
  s ← input_string c.serializer func
  s' ← package_args s args
  net_call (record c { serializer = s' }) raw wrote got
