-- ===== src/Vcdiff/MemoryTarget/Laws.antt =====
-- `FallibleMemoryTarget` keeps the promises of `Read`, `Write` and `Seek`.
use rust_crates.Prelude.{
  ℕ, ◌+◌, ◌-◌, ◌≤◌, ◌≡◌, refl, sym, ap, ◌∙◌, List, [], ◌++◌, arith, min, true, append-nil, inl, inr,
  Bool-cases,
}
use rust_crates.Prelude.{
  IsU64, length, take, drop, replicate, length-append, length-replicate, take-append, drop_all,
  take_all, ltb, leb, lt→ltb,
}
use rust_crates.Vcdiff.Stream.{ReadsBytes, WritesBytes, done}
use rust_crates.Vcdiff.MemoryTarget.{FallibleMemoryTarget, read, write, seek, grow, memory_stream}

unfoldable pub read_next : ℕ → FallibleMemoryTarget → FallibleMemoryTarget
read_next n t = record t { at = t.at + min n (length t.bytes - t.at) }

pub read_gives :
    (n : ℕ) (t : FallibleMemoryTarget)
    → t.at ≤ length t.bytes
    → IsU64 (length t.bytes)
    → read n t ≡ (done (take (min n (length t.bytes - t.at)) (drop t.at t.bytes)), read_next n t)
unfolding read read_next
read_gives n t h s = elim (Bool-cases (leb (length t.bytes) t.at)) [
  | inl ended ↦
      let count : 0 ≡ min n (length t.bytes - t.at) = ground arith in
      rw ended (λ j. (
        done (take (count j) (drop t.at t.bytes)),
        record t {
          at = (let e : t.at ≡ t.at + min n (length t.bytes - t.at) = omega arith in e) j;
        },
      ))
  | inr more ↦
      let fits : ltb (t.at + min n (length t.bytes - t.at)) 0x1_0000_0000_0000_0000 ≡ true =
        lt→ltb _ _ (omega arith) in
      rw (more, fits)
]

grow_front : (stop : ℕ) (bytes : List ℕ) → take (length bytes) (grow stop bytes) ≡ bytes
unfolding grow
grow_front stop bytes = elim (Bool-cases (ltb (length bytes) stop)) [
  | inl short ↦ rw short (take-append bytes (replicate (stop - length bytes) 0))
  | inr long ↦ rw long (take_all (length bytes) bytes (omega arith))
]

grow_back : (stop : ℕ) (bytes : List ℕ) → length bytes ≤ stop → drop stop (grow stop bytes) ≡ []
unfolding grow
grow_back stop bytes h = elim (Bool-cases (ltb (length bytes) stop)) [
  | inl short ↦ rw short (
      drop_all stop (bytes ++ replicate (stop - length bytes) 0) (
        omega (
          arith,
          length-append bytes (replicate (stop - length bytes) 0),
          length-replicate {A = ℕ} (stop - length bytes) 0,
        )))
  | inr long ↦ rw long (drop_all stop bytes h)
]

unfoldable pub write_next : List ℕ → FallibleMemoryTarget → FallibleMemoryTarget
write_next bs t = record { bytes = t.bytes ++ bs; at = t.at + length bs }

pub write_gives :
    (bs : List ℕ) (t : FallibleMemoryTarget)
    → t.at ≡ length t.bytes
    → IsU64 (length t.bytes + length bs)
    → write bs t ≡ (done (length bs), write_next bs t)
unfolding write write_next
write_gives bs t h s =
    let fits : ltb (t.at + length bs) 0x1_0000_0000_0000_0000 ≡ true = lt→ltb _ _ (omega arith) in
    let front : take t.at (grow (t.at + length bs) t.bytes) ≡ t.bytes =
      ap (λ (n : ℕ). take n (grow (t.at + length bs) t.bytes)) h
      ∙ grow_front (t.at + length bs) t.bytes in
    let back : bs ++ drop (t.at + length bs) (grow (t.at + length bs) t.bytes) ≡ bs =
      ap (λ l. bs ++ l) (grow_back (t.at + length bs) t.bytes (omega arith)) ∙ append-nil bs in
    rw (fits, write)
      (λ j. (done (length bs), record { bytes = front j ++ back j; at = t.at + length bs }))

unfoldable pub memory_reads : ReadsBytes memory_stream
unfolding read_next seek
memory_reads = record {
  bytes = λ t. t.bytes;
  position = λ t. t.at;
  read_count = λ n t. min n (length t.bytes - t.at);
  read_next = read_next;
  read_gives = λ n t r. read_gives n t;
  read_ready = λ n t r. tt;
  read_some = λ n t p h. omega arith;
  read_fits = λ n t. omega arith;
  read_inside = λ n t h. omega arith;
  read_keeps = λ n t. refl;
  read_moves = λ n t. refl;
  seek_next = λ n t. record t { at = n };
  seek_gives = λ n t r. refl;
  seek_ready = λ n t r. tt;
  seek_keeps = λ n t. refl;
  seek_moves = λ n t. refl;
}

-- The memory target of `decode` reads, writes and seeks as the documentation of the traits says:
-- reads give the bytes at its position, writes at its end append, and neither fails below 2^64
-- bytes. Its `flush` does nothing: what is written can be read at once.
unfoldable pub memory_WritesBytes : WritesBytes memory_stream
unfolding write_next memory_reads
memory_WritesBytes = record {
  IsFlushed = λ t. Unit {0};
  reads = memory_reads;
  write_count = λ bs t. length bs;
  write_next = write_next;
  write_gives = write_gives;
  write_some = λ bs t h. h;
  write_fits = λ bs t. omega arith;
  write_appends = λ bs t h. ap (λ l. t.bytes ++ l) (sym (take_all (length bs) bs (omega arith)));
  write_moves = λ bs t. refl;
  flush_next = λ t. t;
  flush_gives = λ t. refl;
  flush_ready = λ t. tt;
  flush_keeps = λ t. refl;
  flush_stays = λ t. refl;
}
