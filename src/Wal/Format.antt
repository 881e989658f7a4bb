-- ===== src/Wal/Format.antt =====
-- phira-mp-plus-server/src/persistence/wal/mod.rs: the records of the log and the lines that hold them.
-- JSON and SHA-256 are libraries', so they are the fields of a `Codec`.
use phira_mp_plus.Common.{
  ℕ, ◌<◌, ◌≡◌, List, [], ◌∷◌, ◌++◌, Bool, true, false, ◌&&◌, ◌||◌, Option, none, some, length, take,
  leb, ◌==◌, if◌then◌else◌,
}
use phira_mp_plus.Wire.Text.{Text, beq_text}
use phira_mp_plus.Wire.Containers.{Uuid}

-- `WalRecord`, of events of any type.
pub data WalRecord (E : Type 0) : Type 0 where
  admission : Uuid → E → ℕ → WalRecord E
  ack : Uuid → WalRecord E

-- `WalFrame`
pub record WalFrame (E : Type 0) : Type 0 where
  pub ver : ℕ
  pub record_of : WalRecord E
  pub cksum : Text

-- What the log asks of `serde_json` and `sha2`; `none` stands for an error.
pub record Codec (E : Type 0) : Type 0 where
  -- The record as JSON text, read back and written again.
  pub canonical : WalRecord E → Option (List ℕ)
  -- The digest in hexadecimal.
  pub sha256_hex : List ℕ → Text
  pub to_vec : WalFrame E → Option (List ℕ)
  pub from_slice : List ℕ → Option (WalFrame E)

-- `b'\n'`
abbrev pub newline : ℕ
newline = 10

unfoldable pub has_byte : ℕ → List ℕ → Bool
has_byte b [] = false
has_byte b (x ∷ xs) = x == b || has_byte b xs

-- A record as it is read back, if an event comes back as `read_event` says.
abbrev pub reread : {E : Type 0} → (E → E) → WalRecord E → WalRecord E
reread read_event (admission id event sequence) = admission id (read_event event) sequence
reread read_event (ack id) = ack id

-- The documented behaviour of the library that the log relies on: a frame is read back from its JSON
-- text, but for the event, whose floats may come back rounded; the text holds no raw newline, and no
-- proper part of it from its start is a JSON object.
pub record IsJson {E : Type 0} (c : Codec E) : Type 0 where
  pub read_event : E → E
  pub reads :
      (f : WalFrame E) {bs : List ℕ}
      → c.to_vec f ≡ some bs
      → c.from_slice bs ≡ some (record f { record_of = reread read_event (f.record_of) })
  pub one_line : (f : WalFrame E) {bs : List ℕ} → c.to_vec f ≡ some bs → has_byte newline bs ≡ false
  pub prefix_free :
      (f : WalFrame E) {bs : List ℕ} (n : ℕ)
      → c.to_vec f ≡ some bs
      → n < length bs
      → c.from_slice (take n bs) ≡ none
  pub not_empty : c.from_slice [] ≡ none

-- An event that the first reading settles, as `compute_checksum` relies on: it has the same text for the
-- checksum before and after, and a second reading changes nothing.
pub record Settles {E : Type 0} {c : Codec E} (j : IsJson c) (event : E) : Type 0 where
  pub same_text :
      (id : Uuid) (sequence : ℕ)
      → c.canonical (admission id (j.read_event event) sequence)
        ≡ c.canonical (admission id event sequence)
  pub once : j.read_event (j.read_event event) ≡ j.read_event event

abbrev pub IsSettled : {E : Type 0} {c : Codec E} → IsJson c → WalRecord E → Type 0
IsSettled j (admission id event sequence) = Settles j event
IsSettled j (ack id) = Unit {0}

-- `WAL_FORMAT_VERSION`
abbrev pub wal_format_version : ℕ
wal_format_version = 3

module _ {E : Type 0} (c : Codec E) where
  -- `WalFrame::compute_checksum`
  abbrev pub compute_checksum : ℕ → WalRecord E → Option Text
  compute_checksum ver r = elim (c.canonical r) [
    | none ↦ none
    | some payload ↦ some (c.sha256_hex (ver ∷ payload))
  ]

  abbrev pub framed : WalRecord E → Option Text → Option (WalFrame E)
  framed r none = none
  framed r (some cksum) = some (record { ver = wal_format_version; record_of = r; cksum = cksum })

  -- `WalFrame::new`
  unfoldable pub new_frame : WalRecord E → Option (WalFrame E)
  new_frame r = framed r (compute_checksum wal_format_version r)

  -- `WalFrame::verify`
  unfoldable pub verify : WalFrame E → Bool
  verify f = elim (compute_checksum f.ver f.record_of) [
    | none ↦ false
    | some expected ↦ beq_text f.cksum expected
  ]

  abbrev is_sound : Option (WalFrame E) → Bool
  is_sound none = false
  is_sound (some f) = verify f && leb f.ver wal_format_version

  -- The closure `is_valid_frame`: a complete frame with its checksum, of a known version.
  unfoldable pub is_valid_frame : List ℕ → Bool
  is_valid_frame bytes = is_sound (c.from_slice bytes)

  -- The bytes of a frame with its delimiter.
  abbrev pub line_of : WalFrame E → Option (List ℕ)
  line_of f = elim (c.to_vec f) [ none ↦ none | some bs ↦ some (bs ++ newline ∷ []) ]

-- `bytes.split(|b| *b == b'\n')`
abbrev pub onto_first : ℕ → List (List ℕ) → List (List ℕ)
onto_first b [] = (b ∷ []) ∷ []
onto_first b (s ∷ ss) = (b ∷ s) ∷ ss

unfoldable pub split_lines : List ℕ → List (List ℕ)
split_lines [] = [] ∷ []
split_lines (b ∷ bs) =
    let rest = split_lines bs in if b == newline then [] ∷ rest else onto_first b rest

abbrev pub is_empty {ℓ} : {A : Type ℓ} → List A → Bool
is_empty [] = true
is_empty (x ∷ xs) = false

-- `bytes.last() == Some(&b'\n')`
unfoldable pub ends_with_newline : List ℕ → Bool
ends_with_newline [] = false
ends_with_newline (b ∷ bs) =
    let rest = ends_with_newline bs in if is_empty bs then b == newline else rest
