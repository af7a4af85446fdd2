-- ===== src/Esl/Error.antt =====
-- crates/esl-writer/src/error.rs: why a plugin could not be written, and the outcome of a step that
-- may be refused.
use Prim.Native.String.{String}
use rust_crates.Prelude.{ℕ, Bool, true, false, ◌≡◌, refl, ap}

-- A type signature: `[u8; 4]`.
pub record Signature : Type 0 where
  pub b0 : ℕ
  pub b1 : ℕ
  pub b2 : ℕ
  pub b3 : ℕ

-- The texts that the errors are shown with are left out; `field` is the name of a string field.
pub data WriteError : Type 0 where
  encoding : String → ℕ → WriteError
  interior_nul : String → WriteError
  string_too_long : String → ℕ → WriteError
  record_too_long : ℕ → WriteError
  record_type_mismatch : Signature → Signature → WriteError
  reserved_field_signature : WriteError
  compressed_record_unsupported : Signature → WriteError
  nested_group_required : Signature → WriteError
  group_too_long : ℕ → WriteError
  too_many_records : ℕ → WriteError

-- `Result<_, WriteError>`
pub data Outcome {ℓ} (A : Type ℓ) : Type ℓ where
  refused : WriteError → Outcome A
  written : A → Outcome A

-- `?`
infixl 5 ◌>>=◌ ◌>>◌
abbrev pub ◌>>=◌ {ℓ κ} :
    {Out : Type ℓ} {Next : Type κ} → Outcome Out → (Out → Outcome Next) → Outcome Next
refused fault >>= next = refused fault
written value >>= next = next value

abbrev pub ◌>>◌ {ℓ} : {Next : Type ℓ} → Outcome (Unit {0}) → Outcome Next → Outcome Next
first >> next = first >>= λ _. next

-- `if wrong { return Err(fault) }`
abbrev pub refuse : Bool → WriteError → Outcome (Unit {0})
refuse false fault = written tt
refuse true fault = refused fault

value_or {ℓ} : {A : Type ℓ} → A → Outcome A → A
value_or d (refused fault) = d
value_or d (written c) = c

pub written-injective {ℓ} : {A : Type ℓ} (a b : A) → written a ≡ written b → a ≡ b
unfolding value_or
written-injective a b h = ap (value_or a) h

-- A chain that succeeds succeeds in each step.
pub bind-written {ℓ κ} :
    {Out : Type ℓ} {Next : Type κ} (first : Outcome Out) (next : Out → Outcome Next) {c : Next}
    → (first >>= next) ≡ written c
    → (out : Out) × (first ≡ written out) × (next out ≡ written c)
bind-written (written out) next h = (out, refl, h)
bind-written (refused fault) next h = cc

pub refuse-written :
    (wrong : Bool) (fault : WriteError) (u : Unit {0})
    → refuse wrong fault ≡ written u
    → wrong ≡ false
refuse-written false fault u h = refl
refuse-written true fault u h = cc
