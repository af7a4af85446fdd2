-- ===== src/Esl/Reader.antt =====
-- A reader of plugin files, after the description of the format: what a game finds in the bytes.
pub mod Fields
pub mod RoundTrip
pub mod Plugins
use rust_crates.Prelude.{ℕ, zero, suc, ◌-◌, Option, none, some, List, [], ◌∷◌, ◌++◌}
use rust_crates.Prelude.{if◌then◌else◌, length, read_le, read_bytes}
use rust_crates.Esl.Error.{Signature}
use rust_crates.Esl.Write.{signature, xxxx, grup, same_sig}
use rust_crates.Esl.Content.{Record, Group}

infixl 5 ◌>>=◌
abbrev ◌>>=◌ {ℓ κ} : {A : Type ℓ} {B : Type κ} → Option A → (A → Option B) → Option B
none >>= next = none
some found >>= next = next found

unfoldable pub read_sig : List ℕ → Option (Signature × List ℕ)
read_sig (a ∷ b ∷ c ∷ d ∷ rest) = some (signature a b c d, rest)
read_sig _ = none

-- An `XXXX` field gives the length of the field behind it.
unfoldable pub read_field : List ℕ → Option ((Signature × List ℕ) × List ℕ)
unfolding read_sig
read_field bytes = do
  (sig, r1) ← read_sig bytes
  (len, r2) ← read_le 2 r1
  if same_sig sig xxxx
      then (do
        (long, r3) ← read_le 4 r2
        (sig', r4) ← read_sig r3
        (unused, r5) ← read_le 2 r4
        (payload, r6) ← read_bytes long r5
        some ((sig', payload), r6))
      else (do (payload, r3) ← read_bytes len r2; some ((sig, payload), r3))

-- One after another, up to the end. Each round takes a byte at least.
unfoldable pub read_many {ℓ} :
    {A : Type ℓ} → (List ℕ → Option (A × List ℕ)) → ℕ → List ℕ → Option (List A)
read_many read rounds [] = some []
read_many read zero (b ∷ bytes) = none
read_many read (suc rounds) (b ∷ bytes) = do
  (first, rest) ← read (b ∷ bytes)
  others ← read_many read rounds rest
  some (first ∷ others)

unfoldable pub read_fields : List ℕ → Option (List (Signature × List ℕ))
unfolding read_many read_field
read_fields bytes = read_many read_field (length bytes) bytes

unfoldable pub read_record : List ℕ → Option (Record × List ℕ)
unfolding read_sig read_fields
read_record bytes = do
  (sig, r1) ← read_sig bytes
  (size, r2) ← read_le 4 r1
  (flags, r3) ← read_le 4 r2
  (form_id, r4) ← read_le 4 r3
  (timestamp, r5) ← read_le 2 r4
  (version_control, r6) ← read_le 2 r5
  (form_version, r7) ← read_le 2 r6
  (unknown, r8) ← read_le 2 r7
  (body, rest) ← read_bytes size r8
  fields ← read_fields body
  some (
    record {
      sig = sig;
      form_id = form_id;
      flags = flags;
      form_version = some form_version;
      fields = fields;
    },
    rest,
  )

unfoldable pub read_records : List ℕ → Option (List Record)
unfolding read_many read_record
read_records bytes = read_many read_record (length bytes) bytes

unfoldable pub read_group : List ℕ → Option (Group × List ℕ)
unfolding read_sig read_records
read_group bytes = do
  (sig, r1) ← read_sig bytes
  (size, r2) ← read_le 4 r1
  (label, r3) ← read_sig r2
  (group_type, r4) ← read_le 4 r3
  (timestamp, r5) ← read_le 2 r4
  (version_control, r6) ← read_le 2 r5
  (unknown, r7) ← read_le 4 r6
  (content, rest) ← read_bytes (size - 24) r7
  records ← read_records content
  if same_sig sig grup then some (record { label = label; records = records }, rest) else none

unfoldable pub read_groups : List ℕ → Option (List Group)
unfolding read_many read_group
read_groups bytes = read_many read_group (length bytes) bytes

-- The record at the head of the file, and the groups behind it.
unfoldable pub read_plugin : List ℕ → Option (Record × List Group)
unfolding read_record read_groups
read_plugin bytes = do
  (head, rest) ← read_record bytes
  groups ← read_groups rest
  some (head, groups)
