-- ===== src/Buffer/Contents.antt =====
-- The buffer of matelib/Buffer.h as the sequence of its unread bytes.
use matelib.Prelude.{
  ℕ, ◌+◌, ◌≤◌, ◌≡◌, ap, ◌∙◌, List, ◌++◌, arith, sub_size-eq, length, take, drop, length-append,
}
use matelib.Prelude.Slices.{drop-append_left, take_all, take-append_le}
use matelib.Buffer.{Buffer, cheap_prepend, readable_bytes, writeable_bytes, peek}

-- The vector is the bytes before `readIndex_`, the unread bytes `s`, and the free space behind.
pub record Holds (b : Buffer) (s : List ℕ) : Type 0 where
  pub pre : List ℕ
  pub post : List ℕ
  pub layout : b.buffer ≡ pre ++ (s ++ post)
  pub at_read : b.read_index ≡ length pre
  pub at_write : b.write_index ≡ length pre + length s
  pub headroom : cheap_prepend ≤ length pre

module _ {b : Buffer} {s : List ℕ} (h : Holds b s) where
  pub readable_bytes-Holds : readable_bytes b ≡ length s
  readable_bytes-Holds =
      sub_size-eq b.write_index b.read_index (omega (arith, h.at_write, h.at_read))
      ∙ omega (arith, h.at_write, h.at_read)

  pub length-Holds : length b.buffer ≡ length h.pre + length s + length h.post
  length-Holds =
      ap length h.layout ∙ omega (arith, length-append h.pre (s ++ h.post), length-append s h.post)

  pub writeable_bytes-Holds : writeable_bytes b ≡ length h.post
  writeable_bytes-Holds =
      sub_size-eq (length b.buffer) b.write_index (omega (arith, h.at_write, length-Holds))
      ∙ omega (arith, h.at_write, length-Holds)

  pub peek-Holds : (n : ℕ) → n ≤ length s → peek b n ≡ take n s
  peek-Holds n le =
      ap (λ (xs : List ℕ). take n (drop b.read_index xs)) h.layout
      ∙ ap (take n) (drop-append_left h.pre (s ++ h.post) b.read_index h.at_read)
      ∙ take-append_le s h.post n le

  pub peek_all-Holds : peek b (readable_bytes b) ≡ s
  peek_all-Holds =
      rw readable_bytes-Holds
        (peek-Holds (length s) (omega arith) ∙ take_all s (length s) (omega arith))
