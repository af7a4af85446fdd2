-- ===== src/Vcdiff/Djw/Fault.antt =====
-- crates/vcdiff/src/djw.rs: results with a `DjwFault`, and the error that a fault becomes.
use rust_crates.Prelude.{ℕ, ◌+◌, ◌<◌, ◌≡◌, refl, ap, Bool, true, false, Option, none, some, List}
use rust_crates.Prelude.{
  ltb, if◌then◌else◌, length, get_elem?, set, Bool-cases, Option-cases, inl, inr, arith,
}
use rust_crates.Vcdiff.Error.{
  DecodeContext, DecodeError, Result, ok, err, panic, DjwFault, invalid_table, djw_fault,
  secondary_decompression,
}

abbrev pub xdelta_djw_id : ℕ
xdelta_djw_id = 1

-- `Result<_, DjwFault>`, or a panic.
pub data Checked {ℓ} (A : Type ℓ) : Type ℓ where
  good : A → Checked A
  faulty : DjwFault → Checked A
  crashed : Checked A

-- `?`
infixl 5 ◌>>=◌ ◌>>◌
abbrev pub ◌>>=◌ {ℓ κ} :
    {Out : Type ℓ} {Next : Type κ} → Checked Out → (Out → Checked Next) → Checked Next
good value >>= next = next value
faulty fault >>= next = faulty fault
crashed >>= next = crashed

abbrev pub ◌>>◌ {ℓ} : {Next : Type ℓ} → Checked (Unit {0}) → Checked Next → Checked Next
first >> next = first >>= λ _. next

-- `if wrong { return Err(fault) }`
abbrev pub reject : Bool → DjwFault → Checked (Unit {0})
reject true fault = faulty fault
reject false fault = good tt

-- `.ok_or(fault)?`
abbrev pub or_fault {ℓ} : {A : Type ℓ} → Option A → DjwFault → Checked A
or_fault (some a) fault = good a
or_fault none fault = faulty fault

-- `xs[i]`
abbrev pub item : List ℕ → ℕ → Checked ℕ
item xs i = elim (get_elem? xs i) [ some v ↦ good v | none ↦ crashed ]

-- `xs[i] = v`
abbrev pub put : List ℕ → ℕ → ℕ → Checked (List ℕ)
put xs i v = if ltb i (length xs) then good (set xs i v) else crashed

-- `checked_add` on `u16`, with `InvalidTable` for an overflow
abbrev pub add_u16 : ℕ → ℕ → Checked ℕ
add_u16 a b = if ltb 0xffff (a + b) then faulty invalid_table else good (a + b)

abbrev pub format_error : DecodeContext → DjwFault → DecodeError
format_error context fault = secondary_decompression xdelta_djw_id context (djw_fault fault)

-- `.map_err(|fault| format_error(context, fault))?`
abbrev pub or_format {ℓ} : {A : Type ℓ} → DecodeContext → Checked A → Result A
or_format context (good a) = ok a
or_format context (faulty fault) = err (format_error context fault)
or_format context crashed = panic

good_or {ℓ} : {A : Type ℓ} → A → Checked A → A
good_or d (good a) = a
good_or d (faulty fault) = d
good_or d crashed = d

pub good-injective {ℓ} : {A : Type ℓ} (a b : A) → good a ≡ good b → a ≡ b
unfolding good_or
good-injective a b h = ap (good_or a) h

-- A chain that succeeds succeeds in each step.
pub bind-good {ℓ κ} :
    {Out : Type ℓ} {Next : Type κ} (first : Checked Out) (next : Out → Checked Next) {c : Next}
    → (first >>= next) ≡ good c
    → (out : Out) × (first ≡ good out) × (next out ≡ good c)
bind-good (good out) next h = (out, refl, h)
bind-good (faulty fault) next h = cc
bind-good crashed next h = cc

pub reject-good :
    (wrong : Bool) (fault : DjwFault) (u : Unit {0}) → reject wrong fault ≡ good u → wrong ≡ false
reject-good false fault u h = refl
reject-good true fault u h = cc

pub item-good : (xs : List ℕ) (i v : ℕ) → item xs i ≡ good v → get_elem? xs i ≡ some v
item-good xs i v h = elim (Option-cases (get_elem? xs i)) [
  | inl missing ↦ absurd (ground (arith, missing))
  | inr (a, found) ↦ grind (arith, found, good-injective)
]

pub put-good :
    (xs ys : List ℕ) (i v : ℕ) → put xs i v ≡ good ys → (i < length xs) × (set xs i v ≡ ys)
put-good xs ys i v h = elim (Bool-cases (ltb i (length xs))) [
  | inl inside ↦ (ground (arith, inside), good-injective (set xs i v) ys (rw inside at h))
  | inr outside ↦ absurd (ground (arith, outside))
]

pub add_u16-good : (a b c : ℕ) → add_u16 a b ≡ good c → a + b ≡ c
add_u16-good a b c h = elim (Bool-cases (ltb 0xffff (a + b))) [
  | inl over ↦ absurd (ground (arith, over))
  | inr fits ↦ good-injective (a + b) c (rw fits at h)
]
