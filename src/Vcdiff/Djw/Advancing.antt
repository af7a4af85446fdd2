-- ===== src/Vcdiff/Djw/Advancing.antt =====
-- A turn of `expand_tokens` gives a value, takes a token, or finds a fault.
use rust_crates.Prelude.{ℕ, ◌-◌, ◌<◌, ◌≡◌, refl, Bool, false, not, List, arith, inl, inr}
use rust_crates.Prelude.{leb, ◌==◌, ◌&&◌, ◌||◌, length, Bool-cases, Option-cases}
use rust_crates.Vcdiff.Error.{invalid_field}
use rust_crates.Vcdiff.Djw.Fault.{reject, item, put}
use rust_crates.Vcdiff.Djw.Tokens.{
  promote, TokenMachine, is_some, queue, advance_token, is_skipped, advance,
}
use rust_crates.Vcdiff.Djw.Checking.{
  Checks, passes, Checks-bind, reject-Checks, item-Checks, put-Checks,
}
use rust_crates.Vcdiff.Djw.Machine.{
  IsMtf, promote-Checks, is_busy, tokens_due, tokens_due-idle_any, queue_run-Checks,
  tokens_due-pending,
}

pub queue-Checks :
    (token : ℕ) (m : TokenMachine)
    → IsMtf m.mtf
    → is_busy m ≡ false
    → Checks (λ m'. IsMtf m'.mtf × (tokens_due m' < tokens_due m)) (queue token m)
unfolding queue is_busy
queue-Checks token m i idle =
    Checks-bind (reject (not (m.run_remaining == 0) || is_some m.pending_move) invalid_field) _
      (reject-Checks (not (m.run_remaining == 0) || is_some m.pending_move) invalid_field)
      (λ _ _. elim (Bool-cases (leb token 1)) [
        | inl run ↦ rw run (queue_run-Checks token m (ground (arith, run)) i idle)
        | inr move ↦ rw move (
            passes _ refl
              (i, omega (arith, tokens_due-idle_any m idle, tokens_due-pending (token - 1) 0 m)))
      ])

-- A value was given, or the machine waits for a token.
pub record Advanced (values : List ℕ) (m : TokenMachine) (moved : Bool) (values' : List ℕ)
    (m' : TokenMachine) : Type 0 where
  pub same_length : length values' ≡ length values
  pub is_mtf : IsMtf m'.mtf
  pub waits : moved ≡ false → (m' ≡ m) × (is_busy m ≡ false)

advance_token-Checks :
    (values : List ℕ) (at : ℕ) (m : TokenMachine)
    → IsMtf m.mtf
    → at < length values
    → Checks
        (λ (moved, values', m'). Advanced values m moved values' m')
        (advance_token values at m)
unfolding advance_token is_busy is_some
advance_token-Checks values at m i inside = elim (Bool-cases (m.run_remaining == 0)) [
  | inr running ↦ rw running (
      Checks-bind (item m.mtf.values 0) _ (item-Checks m.mtf.values 0 i.nonempty) (λ front _.
        Checks-bind (put values at front) _ (put-Checks values at front inside) (λ values' same.
          passes _ refl (record { same_length = same; is_mtf = i; waits = λ h. cc }))))
  | inl idle ↦ elim (Option-cases m.pending_move) [
    | inl nothing ↦
        rw (advance_token, idle, nothing)
          (passes _ refl (record {
            same_length = refl;
            is_mtf = i;
            waits = λ h. (λ j. record m { pending_move = nothing j }, rw idle refl);
          }))
    | inr (position, pending) ↦
        rw (advance_token, idle, pending)
          (Checks-bind (promote position m.mtf) _ (promote-Checks position m.mtf i)
            (λ (value, mtf') i'.
              Checks-bind (put values at value) _ (put-Checks values at value inside)
                (λ values' same.
                  passes _ refl (record { same_length = same; is_mtf = i'; waits = λ h. cc }))))
  ]
]

is_skipped-Checks :
    (values : List ℕ) (at skip_stride : ℕ)
    → at < length values
    → Checks (λ _. Unit {0}) (is_skipped values at skip_stride)
unfolding is_skipped
is_skipped-Checks values at skip_stride inside =
    elim (Bool-cases (not (skip_stride == 0) && leb skip_stride at)) [
      | inl far ↦ rw far (
          Checks-bind (item values (at - skip_stride)) _
            (item-Checks values (at - skip_stride) (omega arith)) (λ before _. passes _ refl tt))
      | inr near ↦ rw near (passes _ refl tt)
    ]

pub advance-Checks :
    (values : List ℕ) (at skip_stride : ℕ) (m : TokenMachine)
    → IsMtf m.mtf
    → at < length values
    → Checks
        (λ (moved, values', m'). Advanced values m moved values' m')
        (advance values at skip_stride m)
unfolding advance
advance-Checks values at skip_stride m i inside =
    Checks-bind (is_skipped values at skip_stride) _
      (is_skipped-Checks values at skip_stride inside)
      (λ skipped _. elim (Bool-cases skipped) [
        | inl zero_before ↦ rw zero_before (
            Checks-bind (put values at 0) _ (put-Checks values at 0 inside) (λ values' same.
              passes _ refl (record { same_length = same; is_mtf = i; waits = λ h. cc })))
        | inr coded ↦ rw coded (advance_token-Checks values at m i inside)
      ])
