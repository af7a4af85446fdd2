-- ===== src/Vcdiff/Djw/Machine.antt =====
-- The token machine never leaves its lists, and each token that it takes leads to a value.
use rust_crates.Prelude.{
  ℕ, zero, suc, ◌+◌, ◌*◌, ◌%◌, ◌^◌, ◌≤◌, ◌<◌, ◌≡◌, refl, sym, Bool, true, false, not, some, ◌∷◌,
  ◌++◌, arith, inl, inr, agree_below, agree_below→eq,
}
use rust_crates.Prelude.{
  ltb, leb, ◌==◌, ◌||◌, if◌then◌else◌, length, take, drop, Bool-cases, length-drop, length-take,
  length-append, checked_add,
}
use mathlib.Core.Option.{some-injective}
use rust_crates.Vcdiff.Error.{invalid_mtf, run_overflow}
use rust_crates.Vcdiff.Djw.Fault.{reject, or_fault, item}
use rust_crates.Vcdiff.Djw.Tokens.{MtfList, promote, TokenMachine, is_some, checked_shl, queue_run}
use rust_crates.Vcdiff.Djw.Checking.{
  Checks, passes, Checks-bind, reject-Checks, or_fault-Checks, item-Checks,
}

pub record IsMtf (list : MtfList) : Type 0 where
  pub len_within : list.len ≤ length list.values
  pub nonempty : 0 < length list.values

pub promote-Checks :
    (position : ℕ) (list : MtfList)
    → IsMtf list
    → Checks (λ (value, list'). IsMtf list') (promote position list)
unfolding promote
promote-Checks position list i =
    Checks-bind (reject (leb list.len position) invalid_mtf) _
      (reject-Checks (leb list.len position) invalid_mtf)
      (λ _ inside.
        let below : position < length list.values = ground (arith, inside, i.len_within) in
        Checks-bind (item list.values position) _ (item-Checks list.values position below)
          (λ value e.
            let size : length
                  (value ∷ (take position list.values ++ drop (position + 1) list.values))
                ≡ length list.values =
              omega (
                arith,
                below,
                length-append (take position list.values) (drop (position + 1) list.values),
                length-take position list.values,
                length-drop (position + 1) list.values,
              ) in
            passes _ refl
              (record { len_within = omega (arith, size, i.len_within); nonempty = omega arith })))

-- A value is due.
unfoldable pub is_busy : TokenMachine → Bool
is_busy m = not (m.run_remaining == 0) || is_some m.pending_move

-- How many tokens are read before the next value, at most.
unfoldable pub tokens_due : TokenMachine → ℕ
unfolding is_busy
tokens_due m = if is_busy m then 0 else if leb m.run_exponent 63 then 2 else 1

pub tokens_due-le : (m : TokenMachine) → tokens_due m ≤ 2
unfolding tokens_due
tokens_due-le m = elim (Bool-cases (is_busy m)) [
  | inl busy ↦ rw busy (omega arith)
  | inr idle ↦ elim (Bool-cases (leb m.run_exponent 63)) [
    | inl low ↦ rw (idle, low) (omega arith)
    | inr high ↦ rw (idle, high) (omega arith)
  ]
]

-- Shifts by less than 63 bits keep a run from being empty.
empty_run : ℕ → ℕ
empty_run exponent =
    if 1 * 2 ^ exponent % 2 ^ 64 == 0 || 2 * 2 ^ exponent % 2 ^ 64 == 0 then 1 else 0

empty_run-zero : (exponent : ℕ) → exponent < 63 → empty_run exponent ≡ 0
unfolding empty_run agree_below
empty_run-zero = agree_below→eq empty_run (λ _. 0) 63 refl

tokens_due-idle : (m : TokenMachine) → is_busy m ≡ false → m.run_exponent ≤ 63 → tokens_due m ≡ 2
unfolding tokens_due
tokens_due-idle m idle low =
    let short : leb m.run_exponent 63 ≡ true = ground (arith, low) in rw (idle, short) refl

tokens_due-high : (m : TokenMachine) → 63 < m.run_exponent → tokens_due m ≤ 1
unfolding tokens_due
tokens_due-high m high =
    let long : leb m.run_exponent 63 ≡ false = ground (arith, high) in
    elim (Bool-cases (is_busy m)) [
      | inl busy ↦ rw busy (omega arith)
      | inr idle ↦ rw (idle, long) (omega arith)
    ]

tokens_due-busy : (m : TokenMachine) → 0 < m.run_remaining → tokens_due m ≡ 0
unfolding tokens_due is_busy
tokens_due-busy m h =
    let running : (m.run_remaining == 0) ≡ false = ground (arith, h) in rw running refl

checked_shl-amount :
    (a by amount : ℕ) → checked_shl a by ≡ some amount → (by < 64) × (amount ≡ a * 2 ^ by % 2 ^ 64)
unfolding checked_shl
checked_shl-amount a by amount h = elim (Bool-cases (ltb by 64)) [
  | inl fits ↦
      (ground (arith, fits), sym (some-injective (a * 2 ^ by % 2 ^ 64) amount (rw fits at h)))
  | inr over ↦ absurd (ground (arith, over))
]

checked_add-sum : (a b c : ℕ) → checked_add a b ≡ some c → c ≡ a + b
checked_add-sum a b c h = elim (Bool-cases (ltb (a + b) 0x1_0000_0000_0000_0000)) [
  | inl fits ↦ sym (some-injective (a + b) c (rw fits at h))
  | inr over ↦ absurd (ground (arith, over))
]

run-positive : (token by : ℕ) → token ≤ 1 → by < 63 → 0 < (token + 1) * 2 ^ by % 2 ^ 64
unfolding empty_run
run-positive zero by h k = ground (arith, empty_run-zero by k)
run-positive (suc zero) by h k = ground (arith, empty_run-zero by k)
run-positive (suc (suc token)) by h k = absurd (omega arith)

queue_run-due :
    (token amount remaining : ℕ) (m : TokenMachine)
    → token ≤ 1
    → is_busy m ≡ false
    → checked_shl (token + 1) m.run_exponent ≡ some amount
    → checked_add m.run_remaining amount ≡ some remaining
    → tokens_due (record m { run_remaining = remaining; run_exponent = m.run_exponent + 1 })
      < tokens_due m
queue_run-due token amount remaining m small idle e1 e2 =
    let after : TokenMachine = record m {
      run_remaining = remaining;
      run_exponent = m.run_exponent + 1;
    } in
    let (fits, shifted) = checked_shl-amount (token + 1) m.run_exponent amount e1 in
    let sum = checked_add-sum m.run_remaining amount remaining e2 in
    let before = tokens_due-idle m idle (omega (arith, fits)) in
    elim (Bool-cases (ltb m.run_exponent 63)) [
      | inl low ↦
          let positive = run-positive token m.run_exponent small (ground (arith, low)) in
          omega (arith, before, tokens_due-busy after (omega (arith, positive, shifted, sum)))
      | inr high ↦ omega (arith, before, tokens_due-high after (ground (arith, high)))
    ]

pub queue_run-Checks :
    (token : ℕ) (m : TokenMachine)
    → token ≤ 1
    → IsMtf m.mtf
    → is_busy m ≡ false
    → Checks (λ m'. IsMtf m'.mtf × (tokens_due m' < tokens_due m)) (queue_run token m)
unfolding queue_run
queue_run-Checks token m small i idle =
    Checks-bind (or_fault (checked_shl (token + 1) m.run_exponent) run_overflow) _
      (or_fault-Checks (checked_shl (token + 1) m.run_exponent) run_overflow)
      (λ amount e1.
        Checks-bind (or_fault (checked_add m.run_remaining amount) run_overflow) _
          (or_fault-Checks (checked_add m.run_remaining amount) run_overflow)
          (λ remaining e2.
            Checks-bind (reject (leb 0xffff_ffff m.run_exponent) run_overflow) _
              (reject-Checks (leb 0xffff_ffff m.run_exponent) run_overflow)
              (λ _ low.
                passes _ refl (i, queue_run-due token amount remaining m small idle e1 e2))))

pub tokens_due-pending :
    (position exponent : ℕ) (m : TokenMachine)
    → tokens_due (record m { pending_move = some position; run_exponent = exponent }) ≡ 0
unfolding tokens_due is_busy is_some
tokens_due-pending position exponent m = elim (Bool-cases (m.run_remaining == 0)) [
  | inl none_left ↦ rw none_left refl
  | inr running ↦ rw running refl
]

pub tokens_due-idle_any : (m : TokenMachine) → is_busy m ≡ false → 0 < tokens_due m
unfolding tokens_due
tokens_due-idle_any m idle = elim (Bool-cases (leb m.run_exponent 63)) [
  | inl low ↦ rw (idle, low) (omega arith)
  | inr high ↦ rw (idle, high) (omega arith)
]
