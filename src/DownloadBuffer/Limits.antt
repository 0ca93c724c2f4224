-- ===== src/DownloadBuffer/Limits.antt =====
-- What `addData` does when the library has no memory left for a larger block.
use nepenthes.Base.{
  ℕ, ◌+◌, ◌%◌, ◌^◌, ◌≤◌, ◌<◌, ◌≡◌, arith, ◌>>=◌, false, List, length, some, none, fault, lt→ltb,
  ◌==◌,
}
use nepenthes.DownloadBuffer.{DownloadBuffer, Malloc, enlarge, grow_and_write, add_ready, add_data}
use nepenthes.DownloadBuffer.Contents.{IsValid, grow-done}

module _ (m : Malloc) where
  grow_and_write-fault :
      (b : DownloadBuffer) (old d : List ℕ) (total : ℕ)
      → b.buffer ≡ some old
      → ((n : ℕ) → b.size < n → m.run n ≡ none)
      → 0 < b.size
      → b.size < 2 ^ 32
      → b.size < total
      → total ≤ 2 ^ 31
      → grow_and_write m b d total ≡ fault
  unfolding grow_and_write enlarge
  grow_and_write-fault b old d total block fails some_size width more fits =
      let (n, grows, enough, above, small) =
        grow-done 32 total b.size some_size width fits (omega arith) in
      rw (grows, ◌>>=◌, fails n (omega arith), block)

  -- When a valid buffer that has a block needs a larger one, for at most 2^31 bytes in all, and
  -- `malloc` gives none, `addData` does not return `false`: the test that is meant for the new
  -- pointer reads the old one, and the new one, NULL, is written to.
  pub add_data-fault :
      (b : DownloadBuffer) (old d : List ℕ)
      → IsValid b
      → b.buffer ≡ some old
      → 0 < b.size
      → ((n : ℕ) → b.size < n → m.run n ≡ none)
      → b.size < b.offset + length d
      → b.offset + length d ≤ 2 ^ 31
      → add_data m b d ≡ fault
  unfolding add_data add_ready
  add_data-fault b old d v block some_size fails more fits =
      let total = (b.offset + length d) % 2 ^ 32 in
      let e : total ≡ b.offset + length d = omega arith in
      let more' : b.size < total = omega (arith, e) in
      let has : (b.size == 0) ≡ false = ground arith in
      rw (has, lt→ltb b.size total more')
        (grow_and_write-fault b old d total block fails some_size v.width more' (omega (arith, e)))
