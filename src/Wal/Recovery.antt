-- ===== src/Wal/Recovery.antt =====
-- phira-mp-plus-server/src/persistence/wal/mod.rs: what is read back from the log.
use phira_mp_plus.Common.{
  ℕ, List, [], ◌∷◌, Bool, true, false, not, ◌&&◌, ◌||◌, Option, none, some, leb, ◌==◌,
  if◌then◌else◌, retain,
}
use phira_mp_plus.Wire.Containers.{Uuid}
use phira_mp_plus.Wal.Format.{
  WalRecord, admission, ack, WalFrame, Codec, wal_format_version, verify, is_valid_frame,
  split_lines, is_empty, ends_with_newline,
}
use phira_mp_plus.Wal.State.{PersistenceWal, mark_corruption}

abbrev pub beq_uuid : Uuid → Uuid → Bool
beq_uuid a b = a.high == b.high && a.low == b.low

-- An admission as the readers return it.
pub record Entry (E : Type 0) : Type 0 where
  pub id : Uuid
  pub event : E
  pub sequence : ℕ

abbrev pub greater : ℕ → ℕ → ℕ
greater a b = if leb a b then b else a

module _ {E : Type 0} where
  unfoldable pub admitted : List (WalRecord E) → List (Entry E)
  admitted [] = []
  admitted (admission id event sequence ∷ rs) =
      record { id = id; event = event; sequence = sequence } ∷ admitted rs
  admitted (ack id ∷ rs) = admitted rs

  unfoldable pub is_acked : Uuid → List (WalRecord E) → Bool
  is_acked id [] = false
  is_acked id (admission j event sequence ∷ rs) = is_acked id rs
  is_acked id (ack j ∷ rs) = beq_uuid j id || is_acked id rs

  -- The admissions without an acknowledgement, in the order of the file.
  unfoldable pub pending : List (WalRecord E) → List (Entry E)
  pending rs = retain (λ (e : Entry E). not (is_acked (e.id) rs)) (admitted rs)

  unfoldable pub records_of : List (WalFrame E) → List (WalRecord E)
  records_of [] = []
  records_of (f ∷ fs) = f.record_of ∷ records_of fs

  unfoldable pub max_sequence_of : List (Entry E) → ℕ
  max_sequence_of [] = 0
  max_sequence_of (e ∷ es) = greater e.sequence (max_sequence_of es)

abbrev all_empty : List (List ℕ) → Bool
all_empty [] = true
all_empty (s ∷ ss) = is_empty s && all_empty ss

module _ {E : Type 0} (c : Codec E) where
  -- Of a file that ends with a newline: the last segment with bytes goes if it is no valid frame and
  -- one before it has bytes. `seen` says whether one before has.
  unfoldable pub drop_torn_line : Bool → List (List ℕ) → List (List ℕ)
  drop_torn_line seen [] = []
  drop_torn_line seen (s ∷ ss) =
      let rest = drop_torn_line (seen || not (is_empty s)) ss in
      if all_empty ss
      then (if seen && not (is_empty s) && not (is_valid_frame c s) then [] else s ∷ ss)
      else s ∷ rest

  -- Of a file that does not: the last segment goes if it is no valid frame.
  unfoldable pub drop_torn_tail : List (List ℕ) → List (List ℕ)
  drop_torn_tail [] = []
  drop_torn_tail (s ∷ ss) =
      let rest = drop_torn_tail ss in
      if is_empty ss then (if is_valid_frame c s then s ∷ [] else []) else s ∷ rest

  -- The frames of the lines, or an error at the first line that is no valid one.
  abbrev checked : Option (WalFrame E) → Option (List (WalFrame E)) → Option (List (WalFrame E))
  checked none rest = none
  checked (some f) none = none
  checked (some f) (some fs) =
      if not (leb f.ver wal_format_version)
      then none
      else if verify c f
      then some (f ∷ fs)
      else none

  unfoldable pub read_frames : List (List ℕ) → Option (List (WalFrame E))
  read_frames [] = some []
  read_frames (s ∷ ss) =
      let rest = read_frames ss in if is_empty s then rest else checked (c.from_slice s) rest

  -- The segments that the readers keep.
  unfoldable pub kept_lines : List ℕ → List (List ℕ)
  kept_lines bytes =
      if ends_with_newline bytes || is_empty bytes
      then drop_torn_line false (split_lines bytes)
      else drop_torn_tail (split_lines bytes)

  -- `list_pending`, where `readable` is the file system's answer.
  unfoldable pub list_pending : Bool → PersistenceWal → Option (List (Entry E)) × PersistenceWal
  list_pending readable w = if not w.replay_succeeded then (some [], w) else elim w.file [
    | none ↦ (some [], w)
    | some bytes ↦ if not readable then (none, w) else elim (read_frames (kept_lines bytes)) [
      | none ↦ (none, mark_corruption w)
      | some frames ↦ (some (pending (records_of frames)), w)
    ]
  ]
