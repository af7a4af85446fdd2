-- ===== src/Vcdiff/Djw/Expanding.antt =====
-- `expand_tokens` always ends: with all values, or with an error.
use rust_crates.Prelude.{
  ℕ, zero, suc, ◌+◌, ◌-◌, ◌*◌, ◌<◌, ◌≡◌, refl, ap, ◌∙◌, not, List, arith, inl, inr,
}
use rust_crates.Prelude.{leb, ◌==◌, ◌||◌, length, Bool-cases}
use rust_crates.Vcdiff.Error.{run_past_end}
use rust_crates.Vcdiff.Stream.{Stream, ReadsBytes}
use rust_crates.Vcdiff.Djw.Fault.{or_format}
use rust_crates.Vcdiff.Djw.Bits.{BitStream, context}
use rust_crates.Vcdiff.Djw.Book.{PrefixBook}
use rust_crates.Vcdiff.Djw.Symbol.{read_symbol}
use rust_crates.Vcdiff.Djw.Tokens.{TokenMachine, is_some, queue, advance, finish}
use rust_crates.Vcdiff.Djw.Section.{expand_step, expand_loop, expand_tokens}
use rust_crates.Vcdiff.Djw.Checking.{Checks, Checks-map, reject-Checks}
use rust_crates.Vcdiff.Djw.Machine.{IsMtf, is_busy, tokens_due, tokens_due-le}
use rust_crates.Vcdiff.Djw.Advancing.{queue-Checks, advance-Checks}
use rust_crates.Vcdiff.Djw.Settling.{
  Settles, gives, Settles-map, Settles-bind, or_format-Settles, IsInSection, read_symbol-Settles,
}

-- How many turns are left, at most.
turns : ℕ → ℕ → TokenMachine → ℕ
turns len index m = 3 * (len - index) + tokens_due m

finish-Checks : (m : TokenMachine) → Checks (λ _. Unit {0}) (finish m)
unfolding finish is_some
finish-Checks m =
    Checks-map (λ _ _. tt)
      (reject-Checks (not (m.run_remaining == 0) || is_some m.pending_move) run_past_end)

module _ {D : Stream} (law : ReadsBytes D) (content : List ℕ) where
  -- A turn leaves fewer turns.
  record Turned (values : List ℕ) (index : ℕ) (m : TokenMachine) (index' : ℕ) (m' : TokenMachine)
      (values' : List ℕ) (bits' : BitStream D) : Type 0 where
    pub placed : IsInSection law content bits'
    pub is_mtf : IsMtf m'.mtf
    pub same_length : length values' ≡ length values
    pub fewer : turns (length values) index' m' < turns (length values) index m

  expand_step-Settles :
      (fuel skip_stride index : ℕ) (token_book : PrefixBook) (m : TokenMachine) (values : List ℕ)
      (bits : BitStream D)
      → IsInSection law content bits
      → IsMtf m.mtf
      → index < length values
      → Settles
          (λ (index', m', values', bits'). Turned values index m index' m' values' bits')
          (expand_step (suc fuel) token_book skip_stride index m values bits)
  unfolding expand_step turns
  expand_step-Settles fuel skip_stride index token_book m values bits s i inside =
      Settles-bind (or_format (context bits) (advance values index skip_stride m)) _
        (or_format-Settles (context bits) (advance values index skip_stride m)
          (advance-Checks values index skip_stride m i inside))
        (λ (moved, values', m') a. elim (Bool-cases moved) [
          | inl given ↦ rw given (
              gives _ refl (record {
                placed = s;
                is_mtf = a.is_mtf;
                same_length = a.same_length;
                fewer = omega (arith, inside, tokens_due-le m');
              }))
          | inr waiting ↦
              let (same, idle) = a.waits waiting in
              rw waiting (
                Settles-bind (read_symbol (suc fuel) token_book bits) _
                  (read_symbol-Settles law content fuel token_book bits s)
                  (λ (token, bits') s'.
                    Settles-bind (or_format (context bits') (queue token m')) _
                      (or_format-Settles (context bits') (queue token m')
                        (queue-Checks token m' a.is_mtf (ap is_busy same ∙ idle)))
                      (λ m'' (i'', less). gives _ refl (record {
                        placed = s';
                        is_mtf = i'';
                        same_length = a.same_length;
                        fewer = omega (arith, less, ap tokens_due same);
                      }))))
        ])

  expand_loop-Settles :
      (rounds fuel skip_stride index : ℕ) (token_book : PrefixBook) (m : TokenMachine)
      (values : List ℕ) (bits : BitStream D)
      → IsInSection law content bits
      → IsMtf m.mtf
      → turns (length values) index m < rounds
      → Settles
          (λ (m', values', bits'). IsInSection law content bits' × (length values' ≡ length values))
          (expand_loop rounds (suc fuel) token_book skip_stride index m values bits)
  unfolding expand_loop turns
  expand_loop-Settles zero fuel skip_stride index token_book m values bits s i h =
      absurd (omega arith)
  expand_loop-Settles (suc rounds) fuel skip_stride index token_book m values bits s i h =
      elim (Bool-cases (leb (length values) index)) [
        | inl done ↦ rw done (gives _ refl (s, refl))
        | inr more ↦ rw more (
            Settles-bind (expand_step (suc fuel) token_book skip_stride index m values bits) _
              (expand_step-Settles fuel skip_stride index token_book m values bits s i
                (ground (arith, more)))
              (λ (index', m', values', bits') t.
                Settles-map (λ _ (s', same). (s', same ∙ t.same_length))
                  (expand_loop-Settles rounds fuel skip_stride index' token_book m' values' bits'
                    t.placed t.is_mtf
                    (omega (arith, h, t.fewer, ap (λ (n : ℕ). turns n index' m') t.same_length)))))
      ]

  -- From bits inside a section, over any book and with any move-to-front list that is not empty,
  -- `expand_tokens` ends: it gives as many values as were asked for and stands inside the section, or it
  -- reports an error. It does not run out of rounds and does not panic.
  pub expand_tokens-Settles :
      (fuel skip_stride : ℕ) (token_book : PrefixBook) (m : TokenMachine) (values : List ℕ)
      (bits : BitStream D)
      → IsInSection law content bits
      → IsMtf m.mtf
      → Settles
          (λ (values', bits'). (length values' ≡ length values) × IsInSection law content bits')
          (expand_tokens (suc fuel) token_book skip_stride m values bits)
  unfolding expand_tokens turns
  expand_tokens-Settles fuel skip_stride token_book m values bits s i =
      Settles-bind
        (expand_loop (3 * length values + 3) (suc fuel) token_book skip_stride 0 m values bits) _
        (expand_loop-Settles (3 * length values + 3) fuel skip_stride 0 token_book m values bits s i
          (omega (arith, tokens_due-le m)))
        (λ (m', values', bits') (s', same).
          Settles-bind (or_format (context bits') (finish m')) _
            (or_format-Settles (context bits') (finish m') (finish-Checks m'))
            (λ _ _. gives _ refl (same, s')))
