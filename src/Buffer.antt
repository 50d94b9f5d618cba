-- ===== src/Buffer.antt =====
-- matelib/Buffer.h and matelib/Buffer.cc: the byte buffer of a connection. A method that writes
-- through `this` returns the new buffer; a failed assert or a write outside the vector is `none`.
-- Pointers into the buffer are indices into `buffer_`.
pub mod Contents
pub mod Grow
pub mod Read
pub mod Search
pub mod Whole
mod Tests
use matelib.Prelude.{
  ℕ, zero, suc, ◌+◌, ◌-◌, Bool, true, false, ◌&&◌, List, [], ◌∷◌, ◌++◌, Option, none, some, ◌>>=◌,
  ◌>>◌, assert, sub_size, ltb, leb, ◌==◌, if◌then◌else◌, length, take, drop, replicate,
}
use matelib.Prelude.Slices.{slice, write_at, resize}

abbrev pub cheap_prepend : ℕ
cheap_prepend = 8

abbrev pub initial_size : ℕ
initial_size = 1024

pub record Buffer : Type 0 where
  pub buffer : List ℕ
  pub read_index : ℕ
  pub write_index : ℕ

unfoldable pub empty : Buffer
empty = record {
  buffer = replicate (cheap_prepend + initial_size) 0;
  read_index = cheap_prepend;
  write_index = cheap_prepend;
}

abbrev pub readable_bytes : Buffer → ℕ
readable_bytes b = sub_size b.write_index b.read_index

abbrev pub writeable_bytes : Buffer → ℕ
writeable_bytes b = sub_size (length b.buffer) b.write_index

abbrev pub prependable_bytes : Buffer → ℕ
prependable_bytes b = b.read_index

-- The bytes `[peek(), peek() + n)`.
abbrev pub peek : Buffer → ℕ → List ℕ
peek b n = slice b.buffer b.read_index n

pub ensure_writable_bytes : Buffer → ℕ → Option Buffer
ensure_writable_bytes b len =
    if ltb (writeable_bytes b) len
    then (if ltb (writeable_bytes b + prependable_bytes b) (len + cheap_prepend)
        then some (record b { buffer = resize b.buffer (b.write_index + len) })
        else (do
          assert (ltb cheap_prepend b.read_index)
          let readable = readable_bytes b
          moved ← write_at b.buffer cheap_prepend (peek b readable)
          let b' = record b {
            buffer = moved;
            read_index = cheap_prepend;
            write_index = cheap_prepend + readable;
          }
          assert (readable == readable_bytes b')
          some b'))
    else some b

-- `std::copy(data, data + len, beginWrite()); writeIndex_ += len;`
copy_in : Buffer → List ℕ → Option Buffer
copy_in b bytes = do
  written ← write_at b.buffer b.write_index bytes
  some (record b { buffer = written; write_index = b.write_index + length bytes })

pub append : Buffer → List ℕ → Option Buffer
unfolding copy_in
append b bytes = do b' ← ensure_writable_bytes b (length bytes); copy_in b' bytes

-- `Buffer(const char* data, size_t len)`
pub of_bytes : List ℕ → Option Buffer
of_bytes bytes = append empty bytes

-- The copying constructor.
pub copy : Buffer → Option Buffer
copy rhs = append fresh (peek rhs (readable_bytes rhs))
  where
    fresh : Buffer
    fresh = record {
      buffer = replicate (cheap_prepend + initial_size + readable_bytes rhs) 0;
      read_index = cheap_prepend;
      write_index = cheap_prepend;
    }

-- `this->swap(rhs)`: the new `*this` and `rhs`.
unfoldable pub swap : Buffer → Buffer → Buffer × Buffer
swap this rhs = (
  record { buffer = rhs.buffer; read_index = rhs.read_index; write_index = rhs.write_index },
  record { buffer = this.buffer; read_index = this.read_index; write_index = this.write_index },
)

-- The moving constructor: the new buffer, and what is left in `rhs`.
pub move : Buffer → Buffer × Buffer
unfolding swap empty
move rhs = swap empty rhs

pub retrieve_all : Buffer → Buffer
retrieve_all b = record b { read_index = cheap_prepend; write_index = cheap_prepend }

pub retrieve : Buffer → ℕ → Option Buffer
unfolding retrieve_all
retrieve b n = do
  assert (leb n (readable_bytes b))
  if ltb n (readable_bytes b)
      then some (record b { read_index = b.read_index + n })
      else some (retrieve_all b)

pub retrieve_until : Buffer → ℕ → Option Buffer
retrieve_until b end = do
  assert (leb b.read_index end)
  assert (leb end b.write_index)
  retrieve b (sub_size end b.read_index)

pub retrieve_as_string : Buffer → ℕ → Option (List ℕ × Buffer)
retrieve_as_string b n = do
  assert (leb n (readable_bytes b))
  let result = peek b n
  b' ← retrieve b n
  some (result, b')

pub retrieve_all_as_string : Buffer → Option (List ℕ × Buffer)
retrieve_all_as_string b = retrieve_as_string b (readable_bytes b)

-- `vector::erase([start, start + len))` behind the first readable byte, `retrieve` at it.
pub erase : Buffer → ℕ → ℕ → Option Buffer
erase b start len = do
  assert (leb b.read_index start)
  assert (leb (start + len) b.write_index)
  if start == b.read_index
      then retrieve b len
      else some (record b {
        buffer = slice b.buffer 0 start ++ drop (start + len) b.buffer;
        write_index = sub_size b.write_index len;
      })

-- `memset(data(), '\0', writeIndex_ - kCheapPrepend); retrieveAll();`
pub clear : Buffer → Option Buffer
clear b = do
  zeroed ← write_at b.buffer cheap_prepend (replicate (sub_size b.write_index cheap_prepend) 0)
  some (retrieve_all (record b { buffer = zeroed }))

-- `std::search`: the index of the first occurrence, or of the end of the range.
abbrev pub starts_with : List ℕ → List ℕ → Bool
starts_with [] xs = true
starts_with (p ∷ ps) [] = false
starts_with (p ∷ ps) (x ∷ xs) = x == p && starts_with ps xs

unfoldable pub search : List ℕ → List ℕ → ℕ
search pat [] = 0
search pat (x ∷ xs) = if starts_with pat (x ∷ xs) then 0 else suc (search pat xs)

-- `\\r\\n`
abbrev pub crlf : List ℕ
crlf = 13 ∷ 10 ∷ []

-- `findCRLF(start)`: the search begins at an index of the caller's; `nullptr` is `none`.
pub find_crlf_from : Buffer → ℕ → Option (Option ℕ)
find_crlf_from b start = do
  assert (leb b.read_index start)
  assert (leb start b.write_index)
  let found = start + search crlf (slice b.buffer start (sub_size b.write_index start))
  some (if found == b.write_index then none else some found)

pub find_crlf : Buffer → Option ℕ
find_crlf b =
    let found = b.read_index + search crlf (peek b (readable_bytes b)) in
    if found == b.write_index then none else some found

pub find_str : Buffer → List ℕ → Option (Option ℕ)
find_str b pat = do
  assert (leb (length pat) (readable_bytes b))
  let found = b.read_index + search pat (peek b (readable_bytes b))
  some (if found == b.write_index then none else some found)

pub find_char : Buffer → ℕ → Option (Option ℕ)
unfolding find_str
find_char b c = find_str b (c ∷ [])

-- `extrabuf[65536]`, and what one `readv` takes of the bytes that wait at a socket, into `room` free
-- bytes and those on the stack.
abbrev pub extra_size : ℕ
extra_size = 65536

abbrev pub one_read : ℕ → List ℕ → List ℕ
one_read room waiting = take (room + extra_size) waiting

-- What `readv` scatters, one read at most: `bytes` fill the free space first and then the buffer on the stack, which
-- is appended. The result is the number of bytes read, and `none` for an error, which leaves the
-- buffer as it is.
pub read_fd : Buffer → Option (List ℕ) → Option (Option ℕ × Buffer)
read_fd b none = some (none, b)
read_fd b (some bytes) = do
  let writable = writeable_bytes b
  filled ← write_at b.buffer b.write_index (take writable bytes)
  if leb (length bytes) writable
      then some (
        some (length bytes),
        record b { buffer = filled; write_index = b.write_index + length bytes },
      )
      else (do
        b' ←
            append (record b { buffer = filled; write_index = length filled }) (drop writable bytes)
        some (some (length bytes), b'))
