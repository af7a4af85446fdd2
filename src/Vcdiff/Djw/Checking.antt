-- ===== src/Vcdiff/Djw/Checking.antt =====
-- Results that are a value or a fault, and never a panic.
use rust_crates.Prelude.{ℕ, ◌<◌, ◌≡◌, refl, ap, ◌∙◌, Bool, true, false, Option, none, some, List}
use rust_crates.Prelude.{ltb, length, get_elem?, get_elem?-some, set, length-set, lt→ltb}
use rust_crates.Vcdiff.Error.{DjwFault}
use rust_crates.Vcdiff.Djw.Fault.{Checked, good, faulty, ◌>>=◌, reject, or_fault, item, put}

-- A value with a property, or a fault.
pub data Checks {A : Type 0} (P : A → Type 0) (c : Checked A) : Type 0 where
  passes : (a : A) → c ≡ good a → P a → Checks P c
  faults : (f : DjwFault) → c ≡ faulty f → Checks P c

module _ {A B : Type 0} {P : A → Type 0} {Q : B → Type 0} where
  pub Checks-bind :
      (first : Checked A) (next : A → Checked B)
      → Checks P first
      → ((a : A) → P a → Checks Q (next a))
      → Checks Q (first >>= next)
  Checks-bind first next (faults f h) k = faults f (ap (λ (c : Checked A). c >>= next) h)
  Checks-bind first next (passes a h p) k = elim (k a p) [
    | passes b e q ↦ passes b (ap (λ (c : Checked A). c >>= next) h ∙ e) q
    | faults f e ↦ faults f (ap (λ (c : Checked A). c >>= next) h ∙ e)
  ]

pub Checks-map :
    {A : Type 0} {P Q : A → Type 0} {c : Checked A}
    → ((a : A) → P a → Q a)
    → Checks P c
    → Checks Q c
Checks-map k (passes a h p) = passes a h (k a p)
Checks-map k (faults f h) = faults f h

pub Checks-known :
    {A : Type 0} {P : A → Type 0} {c : Checked A} → Checks P c → Checks (λ a. P a × (c ≡ good a)) c
Checks-known (passes a h p) = passes a h (p, h)
Checks-known (faults f h) = faults f h

pub reject-Checks : (wrong : Bool) (f : DjwFault) → Checks (λ _. wrong ≡ false) (reject wrong f)
reject-Checks false f = passes tt refl refl
reject-Checks true f = faults f refl

pub or_fault-Checks :
    {A : Type 0} (o : Option A) (f : DjwFault) → Checks (λ a. o ≡ some a) (or_fault o f)
or_fault-Checks (some a) f = passes a refl refl
or_fault-Checks none f = faults f refl

pub item-Checks :
    (xs : List ℕ) (i : ℕ) → i < length xs → Checks (λ v. get_elem? xs i ≡ some v) (item xs i)
item-Checks xs i h = let (v, e) = get_elem?-some xs i h in passes v (rw (item, e) refl) e

pub put-Checks :
    (xs : List ℕ) (i v : ℕ) → i < length xs → Checks (λ ys. length ys ≡ length xs) (put xs i v)
put-Checks xs i v h =
    let inside : ltb i (length xs) ≡ true = lt→ltb i (length xs) h in
    passes (set xs i v) (rw inside refl) (length-set xs i v)
