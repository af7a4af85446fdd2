-- ===== src/Vcdiff/Djw/Tables.antt =====
-- What `decode_section` allocates and builds without reading: selectors, books and move-to-front lists.
use rust_crates.Prelude.{
  ℕ, zero, suc, ◌+◌, ◌-◌, ◌<◌, ◌≡◌, refl, ap, ◌∙◌, List, [], ◌∷◌, arith, inl, inr, replicate,
  length-replicate,
}
use rust_crates.Prelude.{
  Option, none, some, ltb, ◌==◌, ◌||◌, if◌then◌else◌, length, length-append, take, drop, Bool-cases,
  checked_add,
}
use rust_crates.Vcdiff.Error.{
  DecodeContext, ok, err, ◌>>=◌, ok_or, try_usize, DecodeError, arithmetic_overflow,
  window_memory_limit, platform_size_limit, invalid_field,
}
use rust_crates.Vcdiff.Djw.Fault.{reject, or_format}
use rust_crates.Vcdiff.Djw.Book.{build, byte_symbols, max_code_width}
use rust_crates.Vcdiff.Djw.Tokens.{from_slice, identity, count_up}
use rust_crates.Vcdiff.Djw.Section.{allocate_selectors, build_books, initial_length_order}
use rust_crates.Vcdiff.Djw.Checking.{Checks, passes, Checks-bind, reject-Checks}
use rust_crates.Vcdiff.Djw.Machine.{IsMtf}
use rust_crates.Vcdiff.Djw.Totals.{build-Checks}
use rust_crates.Vcdiff.Djw.Settling.{Settles, gives, fails, Settles-bind, or_format-Settles}

try_usize-Settles :
    (value : ℕ) (here : DecodeContext) → Settles (λ v. v ≡ value) (try_usize value here)
try_usize-Settles value here = elim (Bool-cases (ltb value 0x1_0000_0000_0000_0000)) [
  | inl fits ↦ rw fits (gives value refl refl)
  | inr over ↦ rw over (fails (platform_size_limit value here) refl)
]

ok_or-Settles : {A : Type 0} (o : Option A) (e : DecodeError) → Settles (λ _. Unit {0}) (ok_or o e)
ok_or-Settles none e = fails e refl
ok_or-Settles (some a) e = gives a refl tt

check_limit-Settles :
    (count active_memory limit : ℕ) (here : DecodeContext)
    → Settles
        (λ _. Unit {0})
        (if ltb (limit - active_memory) count
          then (do
            attempted ← ok_or (checked_add active_memory count) (arithmetic_overflow here)
            err (window_memory_limit attempted limit here))
          else ok tt)
check_limit-Settles count active_memory limit here =
    elim (Bool-cases (ltb (limit - active_memory) count)) [
      | inr fits ↦ rw fits (gives tt refl tt)
      | inl over ↦ rw over (
          Settles-bind (ok_or (checked_add active_memory count) (arithmetic_overflow here)) _
            (ok_or-Settles (checked_add active_memory count) (arithmetic_overflow here))
            (λ attempted _. fails (window_memory_limit attempted limit here) refl))
    ]

pub allocate_selectors-Settles :
    (count active_memory limit : ℕ) (here : DecodeContext)
    → Settles
        (λ selectors. length selectors ≡ count)
        (allocate_selectors count active_memory limit here)
unfolding allocate_selectors
allocate_selectors-Settles count active_memory limit here =
    Settles-bind _ _ (check_limit-Settles count active_memory limit here) (λ _ _.
      Settles-bind (try_usize count here) _ (try_usize-Settles count here)
        (λ n same. gives (replicate n 0) refl (length-replicate n 0 ∙ same)))

pub build_books-Settles :
    (groups : ℕ) (all_lengths : List ℕ) (here : DecodeContext)
    → Settles (λ books. length books ≡ groups) (build_books groups all_lengths here)
unfolding build_books
build_books-Settles zero all_lengths here = gives [] refl refl
build_books-Settles (suc groups) all_lengths here =
    Settles-bind (or_format here (build (take byte_symbols all_lengths) max_code_width)) _
      (or_format-Settles here (build (take byte_symbols all_lengths) max_code_width)
        (build-Checks (take byte_symbols all_lengths) max_code_width))
      (λ book _.
        Settles-bind (build_books groups (drop byte_symbols all_lengths) here) _
          (build_books-Settles groups (drop byte_symbols all_lengths) here)
          (λ books same. gives (book ∷ books) refl (ap suc same)))

length-count_up : (n start : ℕ) → length (count_up n start) ≡ n
unfolding count_up
length-count_up zero start = refl
length-count_up (suc n) start = ap suc (length-count_up n (start + 1))

pub identity-Checks : (len : ℕ) → Checks (λ list. IsMtf list) (identity len)
unfolding identity
identity-Checks len =
    Checks-bind (reject (len == 0 || ltb 21 len) invalid_field) _
      (reject-Checks (len == 0 || ltb 21 len) invalid_field)
      (λ _ fits.
        let some_len : 0 < len = ground (arith, fits) in
        let size = length-append (count_up len 0) (replicate (21 - len) 0) in
        passes _ refl (record {
          len_within = omega (arith, size, length-count_up len 0);
          nonempty = omega (arith, size, length-count_up len 0);
        }))

pub initial-Checks : Checks (λ list. IsMtf list) (from_slice initial_length_order)
unfolding from_slice
initial-Checks = passes _ refl (record { len_within = omega arith; nonempty = omega arith })
