-- ===== src/Vcdiff/Stream.antt =====
-- The streams that a caller hands to the decoder: the traits `Read`, `Write` and `Seek` of
-- `std::io`, which are not part of the repository, so that their operations are parameters.
use rust_crates.Prelude.{ℕ, ◌+◌, ◌≤◌, ◌<◌, ◌≡◌, List, ◌++◌, IsU64, take, drop, length}
use rust_crates.Vcdiff.Error.{IoError}

-- `negsuc n` is -(n + 1).
pub data ℤ : Type 0 where
  pos : ℕ → ℤ
  negsuc : ℕ → ℤ

pub data SeekFrom : Type 0 where
  start : ℕ → SeekFrom
  end : ℤ → SeekFrom
  current : ℤ → SeekFrom

-- `std::io::Result`
pub data IoResult (A : Type 0) : Type 0 where
  done : A → IoResult A
  failed : IoError → IoResult A

-- `read n` fills a buffer of `n` bytes and answers with the bytes that it wrote to its front.
-- A source and a delta are only read and sought.
pub record Stream : Type 1 where
  pub State : Type 0
  pub read : ℕ → State → IoResult (List ℕ) × State
  pub write : List ℕ → State → IoResult ℕ × State
  pub flush : State → IoResult (Unit {0}) × State
  pub seek : SeekFrom → State → IoResult ℕ × State

-- What the documentation of `Read` and `Seek` promises of a stream, when no call fails and as long
-- as its bytes are ready to be read: a read of a non-empty buffer before the end gives at least one
-- byte and at most as many as fit, from the stream's position on, and moves the position behind
-- them; neither a read nor a seek makes the bytes unready.
pub record ReadsWhen (d : Stream) (IsReady : d.State → Type 0) : Type 1 where
  pub bytes : d.State → List ℕ
  pub position : d.State → ℕ
  pub read_count : ℕ → d.State → ℕ
  pub read_next : ℕ → d.State → d.State
  pub read_gives :
      (n : ℕ) (s : d.State)
      → IsReady s
      → position s ≤ length (bytes s)
      → IsU64 (length (bytes s))
      → d.read n s ≡ (done (take (read_count n s) (drop (position s) (bytes s))), read_next n s)
  pub read_some : (n : ℕ) (s : d.State) → 0 < n → position s < length (bytes s) → 0 < read_count n s
  pub read_fits : (n : ℕ) (s : d.State) → read_count n s ≤ n
  pub read_inside :
      (n : ℕ) (s : d.State)
      → position s ≤ length (bytes s)
      → position s + read_count n s ≤ length (bytes s)
  pub read_keeps : (n : ℕ) (s : d.State) → bytes (read_next n s) ≡ bytes s
  pub read_ready : (n : ℕ) (s : d.State) → IsReady s → IsReady (read_next n s)
  pub read_moves : (n : ℕ) (s : d.State) → position (read_next n s) ≡ position s + read_count n s
  pub seek_next : ℕ → d.State → d.State
  pub seek_gives : (n : ℕ) (s : d.State) → IsReady s → d.seek (start n) s ≡ (done n, seek_next n s)
  pub seek_ready : (n : ℕ) (s : d.State) → IsReady s → IsReady (seek_next n s)
  pub seek_keeps : (n : ℕ) (s : d.State) → bytes (seek_next n s) ≡ bytes s
  pub seek_moves : (n : ℕ) (s : d.State) → position (seek_next n s) ≡ n

-- A stream over fixed bytes, which are ready to be read in every state: a source or a delta.
abbrev pub ReadsBytes : Stream → Type 1
ReadsBytes d = ReadsWhen d λ s. Unit {0}

-- What the documentation of `Write` promises besides, when no call fails: a write of some bytes at
-- the end of the stream appends at least the first of them, answers how many it appended and moves
-- behind them. `bytes` is what has been written: that reads give it and that a seek finds its
-- place is promised only of a stream that is flushed, and of what follows a write it is not known
-- that it is flushed, until `flush` has answered.
pub record WritesBytes (t : Stream) : Type 1 where
  pub IsFlushed : t.State → Type 0
  pub reads : ReadsWhen t IsFlushed
  pub open reads use *
  pub write_count : List ℕ → t.State → ℕ
  pub write_next : List ℕ → t.State → t.State
  pub write_gives :
      (bs : List ℕ) (s : t.State)
      → position s ≡ length (bytes s)
      → IsU64 (length (bytes s) + length bs)
      → t.write bs s ≡ (done (write_count bs s), write_next bs s)
  pub write_some : (bs : List ℕ) (s : t.State) → 0 < length bs → 0 < write_count bs s
  pub write_fits : (bs : List ℕ) (s : t.State) → write_count bs s ≤ length bs
  pub write_appends :
      (bs : List ℕ) (s : t.State)
      → position s ≡ length (bytes s)
      → bytes (write_next bs s) ≡ bytes s ++ take (write_count bs s) bs
  pub write_moves :
      (bs : List ℕ) (s : t.State) → position (write_next bs s) ≡ position s + write_count bs s
  pub flush_next : t.State → t.State
  pub flush_gives : (s : t.State) → t.flush s ≡ (done tt, flush_next s)
  pub flush_ready : (s : t.State) → IsFlushed (flush_next s)
  pub flush_keeps : (s : t.State) → bytes (flush_next s) ≡ bytes s
  pub flush_stays : (s : t.State) → position (flush_next s) ≡ position s
