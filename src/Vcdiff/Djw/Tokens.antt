-- ===== src/Vcdiff/Djw/Tokens.antt =====
-- crates/vcdiff/src/djw.rs, `MtfList`, `TokenMachine` and `expand_tokens`: lists of small values, coded as
-- positions in a move-to-front list and as runs of its front.
use rust_crates.Prelude.{
  ℕ, zero, suc, ◌+◌, ◌-◌, ◌*◌, ◌%◌, ◌^◌, Bool, true, false, not, Option, none, some, List, [], ◌∷◌,
  ◌++◌, replicate, take, drop,
}
use rust_crates.Prelude.{ltb, leb, ◌==◌, ◌&&◌, ◌||◌, if◌then◌else◌, length, checked_add}
use rust_crates.Vcdiff.Error.{invalid_field, invalid_mtf, run_overflow, run_past_end}
use rust_crates.Vcdiff.Djw.Fault.{Checked, good, ◌>>=◌, ◌>>◌, reject, or_fault, item, put}

pub record MtfList : Type 0 where
  pub values : List ℕ
  pub len : ℕ

unfoldable pub from_slice : List ℕ → Checked MtfList
from_slice values = do
  reject (length values == 0 || ltb 21 (length values)) invalid_field
  good (record { values = values ++ replicate (21 - length values) 0; len = length values })

-- `0, 1, …` from a start on
unfoldable pub count_up : ℕ → ℕ → List ℕ
count_up zero start = []
count_up (suc n) start = start ∷ count_up n (start + 1)

unfoldable pub identity : ℕ → Checked MtfList
unfolding count_up
identity len = do
  reject (len == 0 || ltb 21 len) invalid_field
  good (record { values = count_up len 0 ++ replicate (21 - len) 0; len = len })

-- `copy_within(..position, 1)` moves the values before the position up by one.
unfoldable pub promote : ℕ → MtfList → Checked (ℕ × MtfList)
promote position list = do
  reject (leb list.len position) invalid_mtf
  value ← item list.values position
  good (
    value,
    record list { values = value ∷ (take position list.values ++ drop (position + 1) list.values) },
  )

pub record TokenMachine : Type 0 where
  pub mtf : MtfList
  pub run_remaining : ℕ
  pub run_exponent : ℕ
  pub pending_move : Option ℕ

unfoldable pub new : MtfList → TokenMachine
new mtf = record { mtf = mtf; run_remaining = 0; run_exponent = 0; pending_move = none }

unfoldable pub is_some : Option ℕ → Bool
is_some none = false
is_some (some _) = true

-- `checked_shl` on `usize` refuses a shift by 64 bits or more; bits that leave the word are lost.
unfoldable pub checked_shl : ℕ → ℕ → Option ℕ
checked_shl a amount = if ltb amount 64 then some (a * 2 ^ amount % 2 ^ 64) else none

-- The last addition is on `u32`.
unfoldable pub queue_run : ℕ → TokenMachine → Checked TokenMachine
unfolding checked_shl
queue_run token m = do
  amount ← or_fault (checked_shl (token + 1) m.run_exponent) run_overflow
  remaining ← or_fault (checked_add m.run_remaining amount) run_overflow
  reject (leb 0xffff_ffff m.run_exponent) run_overflow
  good (record m { run_remaining = remaining; run_exponent = m.run_exponent + 1 })

unfoldable pub queue : ℕ → TokenMachine → Checked TokenMachine
unfolding is_some queue_run
queue token m = do
  reject (not (m.run_remaining == 0) || is_some m.pending_move) invalid_field
  (if leb token 1
      then queue_run token m
      else good (record m { pending_move = some (token - 1); run_exponent = 0 }))

-- A value that does not follow from the value a stride before.
unfoldable pub advance_token : List ℕ → ℕ → TokenMachine → Checked (Bool × List ℕ × TokenMachine)
advance_token values index m =
    if not (m.run_remaining == 0)
    then (do
      front ← item m.mtf.values 0
      values' ← put values index front
      good (true, values', record m { run_remaining = m.run_remaining - 1 }))
    else elim m.pending_move [
      | none ↦ good (false, values, m)
      | some position ↦ (do
        (value, mtf') ← promote position m.mtf
        values' ← put values index value
        good (true, values', record m { mtf = mtf'; pending_move = none }))
    ]

-- `skip_stride != 0 && index >= skip_stride && values[index - skip_stride] == 0`
unfoldable pub is_skipped : List ℕ → ℕ → ℕ → Checked Bool
is_skipped values index skip_stride =
    if not (skip_stride == 0) && leb skip_stride index
    then (do before ← item values (index - skip_stride); good (before == 0))
    else good false

unfoldable pub advance : List ℕ → ℕ → ℕ → TokenMachine → Checked (Bool × List ℕ × TokenMachine)
unfolding is_skipped advance_token
advance values index skip_stride m = do
  skipped ← is_skipped values index skip_stride
  (if skipped
      then (do values' ← put values index 0; good (true, values', m))
      else advance_token values index m)

unfoldable pub finish : TokenMachine → Checked (Unit {0})
unfolding is_some
finish m = reject (not (m.run_remaining == 0) || is_some m.pending_move) run_past_end
