-- ===== src/Vcdiff/Decoder/Termination.antt =====
-- `run_instructions` on any sections: it comes to an end within the rounds that the length of the
-- instruction section gives, with an answer.
use rust_crates.Prelude.{
  ℕ, zero, suc, ◌+◌, ◌≤◌, ◌≡◌, ◌⊎◌, inl, inr, refl, sym, ap, ◌∙◌, subst, List, [], ◌∷◌, ◌++◌,
  append-nil, append_assoc, arith, true, Bool-cases,
}
use rust_crates.Prelude.{IsU64, IsByte, All, length, get_elem?-some, ◌==◌, ==_iff, if◌then◌else◌}
use rust_crates.Vcdiff.Error.{
  ok, err, DecodeError, Result, ◌>>=◌, data_section, instructions, addresses,
}
use rust_crates.Vcdiff.Stream.{Stream, ReadsBytes, WritesBytes}
use rust_crates.Vcdiff.Cursor
use rust_crates.Vcdiff.Cursor.{SliceCursor}
use rust_crates.Vcdiff.Cursor.Reads.{
  IsInside, IsInside-advance, advance, unread, length-unread, read_u8-ok,
}
use rust_crates.Vcdiff.Cursor.Total.{Reads, reads, refused, read_varint-Reads, List-cases}
use rust_crates.Vcdiff.Cache
use rust_crates.Vcdiff.CodeTable.{InstKind, instruction, Entry, no_op, add, run, copy}
use rust_crates.Vcdiff.Adler.Sums.{IsByte-drop}
use rust_crates.Vcdiff.Target.{TargetWriter, io_buffer_size}
use rust_crates.Vcdiff.Target.Emit.{Holds}
use rust_crates.Vcdiff.Decoder.Instructions.{
  WindowContext, WindowSections, Machine, section_cursor, read_size, step, instruction_loop,
  run_instructions,
}
use rust_crates.Vcdiff.Decoder.Semantics.{Progress, beginning}
use rust_crates.Vcdiff.Decoder.Performing.{IsPlaced, Ready}
use rust_crates.Vcdiff.Decoder.Answering.{IsSound, Answers, produces, refuses}
use rust_crates.Vcdiff.Decoder.Safety.{execute-Answers}

-- A read moves a cursor inside its section no further than the end.
data Forward (c : SliceCursor) : Result (ℕ × SliceCursor) → Type 0 where
  moves : (v n : ℕ) → IsInside (advance n c) → Forward c (ok (v, advance n c))
  stops : (e : DecodeError) → Forward c (err e)

Forward-Reads : {c : SliceCursor} {r : Result (ℕ × SliceCursor)} → Reads c r → Forward c r
Forward-Reads (reads v n w p q i) = moves v n i
Forward-Reads (refused e) = stops e

stays : (c : SliceCursor) (v : ℕ) → IsInside c → Forward c (ok (v, c))
stays c v i =
    let e : c.pos + 0 ≡ c.pos = omega arith in
    subst (λ (p : ℕ). Forward c (ok (v, record c { pos = p }))) e
      (moves v 0 (record { within = omega (arith, i.within); sized = i.sized }))

given_size-Forward :
    (size : ℕ) (c : SliceCursor)
    → IsInside c
    → Forward c (if size == 0 then Cursor.read_varint c else ok (size, c))
given_size-Forward size c i = elim (Bool-cases (size == 0)) [
  | inl z ↦ rw z (Forward-Reads (read_varint-Reads c i))
  | inr s ↦ rw s (stays c size i)
]

read_size-Forward :
    (kind : InstKind) (size mode : ℕ) (c : SliceCursor)
    → IsInside c
    → Forward c (read_size (instruction kind size mode) c)
unfolding read_size
read_size-Forward no_op size mode c i = stays c 0 i
read_size-Forward add size mode c i = given_size-Forward size c i
read_size-Forward run size mode c i = given_size-Forward size c i
read_size-Forward copy size mode c i = given_size-Forward size c i

Forward-cases :
    {c : SliceCursor} {r : Result (ℕ × SliceCursor)}
    → Forward c r
    → ((v n : ℕ) × (r ≡ ok (v, advance n c)) × IsInside (advance n c))
      ⊎ ((e : DecodeError) × (r ≡ err e))
Forward-cases (moves v n i) = inl (v, n, refl, i)
Forward-cases (stops e) = inr (e, refl)

module _ {S T : Stream} (source_law : ReadsBytes S) (law : WritesBytes T)
    (source before segment : List ℕ) (window : WindowContext)
    (placed : IsPlaced source before segment window) (fuel : ℕ)
    (attempts : io_buffer_size ≤ fuel) where
  Answers-trans :
      {σ τ : Progress} {r : Result (Machine S T)} (added : List ℕ)
      → τ.produced ≡ σ.produced ++ added
      → Answers source_law law source before segment window placed fuel attempts τ r
      → Answers source_law law source before segment window placed fuel attempts σ r
  Answers-trans {σ} added e (produces more υ m r s e') =
      produces (added ++ more) υ m r s
        (e' ∙ ap (λ (l : List ℕ). l ++ more) e ∙ append_assoc σ.produced added more)
  Answers-trans added e (refuses fault) = refuses fault

  Answers-bind :
      {X : Type 0} {σ : Progress} {r : Result (Machine S T)} (k : Machine S T → Result X)
      (j : X → Result (Machine S T))
      → Answers source_law law source before segment window placed fuel attempts σ r
      → ((τ : Progress) (m : Machine S T)
          → Ready source_law law source before τ m
          → IsSound window.target_size τ
          → Answers source_law law source before segment window placed fuel attempts τ (k m >>= j))
      → Answers source_law law source before segment window placed fuel attempts σ ((r >>= k) >>= j)
  Answers-bind k j (produces added τ m r s e) f = Answers-trans added e (f τ m r s)
  Answers-bind k j (refuses fault) f = refuses fault

  loop-Answers :
      (table : List Entry) (rounds : ℕ) (codes : SliceCursor) (σ : Progress) (m : Machine S T)
      → length table ≡ 256
      → length codes.bytes ≤ codes.pos + rounds
      → IsInside codes
      → All IsByte codes.bytes
      → Ready source_law law source before σ m
      → IsSound window.target_size σ
      → Answers source_law law source before segment window placed fuel attempts σ
          (instruction_loop rounds fuel window table codes m)
  unfolding instruction_loop step Cursor.is_empty
  loop-Answers table zero codes σ m t l i b r s =
      let ended : (codes.pos == length codes.bytes) ≡ true =
        (==_iff codes.pos (length codes.bytes)).1 (omega (arith, i.within)) in
      rw ended (produces [] σ m r s (sym (append-nil σ.produced)))
  loop-Answers table (suc rounds) codes σ m t l i b r s =
      elim (Bool-cases (codes.pos == length codes.bytes)) [
        | inl ended ↦ rw ended (produces [] σ m r s (sym (append-nil σ.produced)))
        | inr going ↦ elim (List-cases (unread codes)) [
          | inl nothing ↦ absurd (
              ground (
                arith,
                going,
                length-unread codes,
                i.within,
                ap (λ (l : List ℕ). length l) nothing,
              ))
          | inr (opcode, rest, u) ↦
              let byte : All IsByte (opcode ∷ rest) =
                subst (All IsByte) u (unfold unread in IsByte-drop codes.pos _ b) in
              let (e, g) = get_elem?-some table opcode (omega (arith, t, byte)) in
              let i1 : IsInside (advance 1 codes) =
                IsInside-advance 1 codes i (omega (arith, ap (λ (l : List ℕ). length l) u)) in
              rw (going, read_u8-ok codes opcode rest i u, g)
                (elim (Forward-cases
                  (read_size-Forward e.first.kind e.first.size e.first.mode (advance 1 codes) i1)) [
                    | inr (fault, f) ↦ rw f (refuses fault)
                    | inl (size1, n1, f1, i2) ↦
                        elim (Forward-cases (
                          read_size-Forward e.second.kind e.second.size e.second.mode
                            (advance n1 (advance 1 codes)) i2)) [
                              | inr (fault, f) ↦ rw (f1, f) (refuses fault)
                              | inl (size2, n2, f2, i3) ↦
                                  rw (f1, f2)
                                    (Answers-bind _ _
                                      (execute-Answers source_law law source before segment window
                                        placed fuel attempts e.first.kind e.first.size e.first.mode
                                        size1 σ m r s)
                                      λ τ m1 r1 s1.
                                        Answers-bind _ _
                                          (execute-Answers source_law law source before segment
                                            window placed fuel attempts e.second.kind e.second.size
                                            e.second.mode size2 τ m1 r1 s1)
                                          λ υ m2 r2 s2.
                                            loop-Answers table rounds
                                              (advance n2 (advance n1 (advance 1 codes))) υ m2 t
                                              (omega arith) i3 b r2 s2)
                            ]
                  ])
        ]
      ]

  -- What the instructions of a window may come to.
  pub data Ends : Result (S.State × TargetWriter T) → Type 0 where
    extends :
        (produced : List ℕ) (stream : S.State) (output : TargetWriter T)
        → Holds law (before ++ produced) produced output
        → length produced ≤ window.target_size
        → source_law.bytes stream ≡ source
        → Ends (ok (stream, output))
    fails : (e : DecodeError) → Ends (err e)

  Ends-bind :
      {σ : Progress} {r : Result (Machine S T)}
      (k : Machine S T → Result (S.State × TargetWriter T))
      → Answers source_law law source before segment window placed fuel attempts σ r
      → ((τ : Progress) (m : Machine S T)
          → Ready source_law law source before τ m
          → IsSound window.target_size τ
          → Ends (k m))
      → Ends (r >>= k)
  Ends-bind k (produces added τ m r s e) f = f τ m r s
  Ends-bind k (refuses fault) f = fails fault

  -- On any sections of bytes and with a table of 256 entries, `run_instructions` comes to an end with
  -- an answer: it extends the output by no more than the target size of the window, the checksum is
  -- that of the bytes added and the source keeps its bytes, or it gives an error; it never panics.
  -- The streams keep the promises of the traits, the fuel is no less than the I/O buffer, and the
  -- window is placed behind an output and beside a source of bytes, below 2^64 together.
  pub run_instructions-Ends :
      (table : List Entry) (sections : WindowSections) (stream : S.State) (output : TargetWriter T)
      → length table ≡ 256
      → IsSound window.target_size (beginning window sections)
      → IsU64 (length sections.instructions.bytes)
      → All IsByte sections.instructions.bytes
      → Holds law before [] output
      → source_law.bytes stream ≡ source
      → Ends (run_instructions S fuel window table sections stream output)
  unfolding run_instructions section_cursor Cursor.new
  run_instructions-Ends table sections stream output t sound sized bytes h kept =
      let start : Machine S T = record {
        data_cursor = section_cursor window sections.data_bytes data_section;
        address_cursor = section_cursor window sections.addresses addresses;
        cache = Cache.new;
        source = stream;
        output = output;
      } in
      Ends-bind _
        (loop-Answers table (length sections.instructions.bytes)
          (section_cursor window sections.instructions instructions) (beginning window sections)
          start t (omega arith) (record { within = omega arith; sized = sized }) bytes
          (record {
            holds = subst (λ o. Holds law o [] output) (sym (append-nil before)) h;
            source_kept = kept;
            data_at = refl;
            address_at = refl;
            cache_at = refl;
          })
          sound)
        λ τ m r s. elim (Bool-cases (Cursor.is_empty m.data_cursor)) [
          | inr left ↦ rw left (fails _)
          | inl used ↦ elim (Bool-cases (Cursor.is_empty m.address_cursor)) [
            | inr left ↦ rw (used, left) (fails _)
            | inl done ↦
                rw (used, done)
                  (extends τ.produced m.source m.output r.holds s.within r.source_kept)
          ]
        ]
