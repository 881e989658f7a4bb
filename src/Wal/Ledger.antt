-- ===== src/Wal/Ledger.antt =====
-- What the log of phira-mp-plus-server/src/persistence/wal/mod.rs is for, without its readers: the entries that
-- were admitted, less those that an acknowledgement has struck out, as the program gets them back.
use phira_mp_plus.Common.{
  ◌≡◌, refl, ap, sym, ◌∙◌, List, [], ◌∷◌, ◌++◌, Bool, not, ◌||◌, if◌then◌else◌, retain, arith, All,
}
use phira_mp_plus.Common.Tests.{if-both}
use phira_mp_plus.Wire.Containers.{Uuid}
use phira_mp_plus.Wal.Format.{WalRecord, admission, ack, Codec, IsJson, reread, Settles, IsSettled}
use phira_mp_plus.Wal.Recovery.{
  Entry, beq_uuid, admitted, is_acked, pending, max_sequence_of, greater,
}
use phira_mp_plus.Wal.Compact.{admissions}

module _ {E : Type 0} where
  -- The entries that were admitted.
  abbrev pub entered : List (WalRecord E) → List (Entry E)
  entered [] = []
  entered (admission id event sequence ∷ rs) =
      record { id = id; event = event; sequence = sequence } ∷ entered rs
  entered (ack id ∷ rs) = entered rs

  -- All entries under an id go.
  abbrev pub strike : Uuid → List (Entry E) → List (Entry E)
  strike id [] = []
  strike id (e ∷ es) = let rest = strike id es in if beq_uuid id (e.id) then rest else e ∷ rest

  -- One acknowledgement after the other.
  abbrev pub strike_acked : List (WalRecord E) → List (Entry E) → List (Entry E)
  strike_acked [] es = es
  strike_acked (admission id event sequence ∷ rs) es = strike_acked rs es
  strike_acked (ack id ∷ rs) es = strike_acked rs (strike id es)

  -- What is left to be done.
  unfoldable pub outstanding : List (WalRecord E) → List (Entry E)
  outstanding log = strike_acked log (entered log)

  -- What the program gets back of entries.
  abbrev pub read_back : (E → E) → List (Entry E) → List (Entry E)
  read_back read_event [] = []
  read_back read_event (e ∷ es) =
      record e { event = read_event (e.event) } ∷ read_back read_event es

  abbrev pub reread_all : (E → E) → List (WalRecord E) → List (WalRecord E)
  reread_all read_event [] = []
  reread_all read_event (r ∷ rs) = reread read_event r ∷ reread_all read_event rs

  pub reread_all-append :
      (read_event : E → E) (rs ss : List (WalRecord E))
      → reread_all read_event (rs ++ ss) ≡ reread_all read_event rs ++ reread_all read_event ss
  reread_all-append read_event [] ss = refl
  reread_all-append read_event (r ∷ rs) ss =
      ap (◌∷◌ (reread read_event r)) (reread_all-append read_event rs ss)

  strike-retain :
      (id : Uuid) (log : List (WalRecord E)) (es : List (Entry E))
      → retain (λ (e : Entry E). not (is_acked (e.id) log)) (strike id es)
        ≡ retain (λ (e : Entry E). not (is_acked (e.id) (ack id ∷ log))) es
  unfolding is_acked
  strike-retain id log [] = refl
  strike-retain id log (e ∷ es) = ground (arith, strike-retain id log es)

  retain-all :
      (es : List (Entry E)) → retain (λ (e : Entry E). not (is_acked {E = E} (e.id) [])) es ≡ es
  unfolding is_acked
  retain-all [] = refl
  retain-all (e ∷ es) = ap (◌∷◌ e) (retain-all es)

  strike_acked-retain :
      (log : List (WalRecord E)) (es : List (Entry E))
      → strike_acked log es ≡ retain (λ (e : Entry E). not (is_acked (e.id) log)) es
  unfolding is_acked
  strike_acked-retain [] es = sym (retain-all es)
  strike_acked-retain (admission id event sequence ∷ rs) es = strike_acked-retain rs es
  strike_acked-retain (ack id ∷ rs) es =
      strike_acked-retain rs (strike id es) ∙ strike-retain id rs es

  admitted-entered : (log : List (WalRecord E)) → admitted log ≡ entered log
  unfolding admitted
  admitted-entered [] = refl
  admitted-entered (admission id event sequence ∷ rs) =
      ap (◌∷◌ (record { id = id; event = event; sequence = sequence })) (admitted-entered rs)
  admitted-entered (ack id ∷ rs) = admitted-entered rs

  -- The readers find what is left to be done.
  pub pending-outstanding : (log : List (WalRecord E)) → pending log ≡ outstanding log
  unfolding pending outstanding
  pending-outstanding log = rw (admitted-entered log, strike_acked-retain log (entered log)) refl

  admitted-reread_all :
      (read_event : E → E) (log : List (WalRecord E))
      → admitted (reread_all read_event log) ≡ read_back read_event (admitted log)
  unfolding admitted
  admitted-reread_all read_event [] = refl
  admitted-reread_all read_event (admission id event sequence ∷ rs) =
      ap (◌∷◌ (record { id = id; event = read_event event; sequence = sequence }))
        (admitted-reread_all read_event rs)
  admitted-reread_all read_event (ack id ∷ rs) = admitted-reread_all read_event rs

  is_acked-reread_all :
      (read_event : E → E) (id : Uuid) (log : List (WalRecord E))
      → is_acked id (reread_all read_event log) ≡ is_acked id log
  unfolding is_acked
  is_acked-reread_all read_event id [] = refl
  is_acked-reread_all read_event id (admission j event sequence ∷ rs) =
      is_acked-reread_all read_event id rs
  is_acked-reread_all read_event id (ack j ∷ rs) =
      ap (λ b. beq_uuid j id || b) (is_acked-reread_all read_event id rs)

  retain-read_back :
      (read_event : E → E) (log : List (WalRecord E)) (es : List (Entry E))
      → retain
          (λ (e : Entry E). not (is_acked (e.id) (reread_all read_event log)))
          (read_back read_event es)
        ≡ read_back read_event (retain (λ (e : Entry E). not (is_acked (e.id) log)) es)
  retain-read_back read_event log [] = refl
  retain-read_back read_event log (e ∷ es) =
      ground (arith, is_acked-reread_all read_event (e.id) log, retain-read_back read_event log es)

  -- The readers give back what is left to be done.
  pub pending-reread_all :
      (read_event : E → E) (log : List (WalRecord E))
      → pending (reread_all read_event log) ≡ read_back read_event (pending log)
  unfolding pending
  pending-reread_all read_event log =
      rw (admitted-reread_all read_event log) (retain-read_back read_event log (admitted log))

  pub max_sequence_of-read_back :
      (read_event : E → E) (es : List (Entry E))
      → max_sequence_of (read_back read_event es) ≡ max_sequence_of es
  unfolding max_sequence_of
  max_sequence_of-read_back read_event [] = refl
  max_sequence_of-read_back read_event (e ∷ es) =
      ap (greater (e.sequence)) (max_sequence_of-read_back read_event es)

module _ {E : Type 0} {c : Codec E} (j : IsJson c) where
  -- What has been read back is settled, and is read back as it is.
  read_event-Settles : (event : E) → Settles j event → Settles j (j.read_event event)
  read_event-Settles event h = record {
    same_text = λ id n. rw (h.once) refl;
    once = ap (j.read_event) (h.once);
  }

  pub reread_all-IsSettled :
      (log : List (WalRecord E))
      → All (IsSettled j) log
      → All (IsSettled j) (reread_all (j.read_event) log)
  reread_all-IsSettled [] h = tt
  reread_all-IsSettled (admission id event sequence ∷ rs) h =
      (read_event-Settles event h.0, reread_all-IsSettled rs h.1)
  reread_all-IsSettled (ack id ∷ rs) h = (tt, reread_all-IsSettled rs h.1)

  pub reread_all_twice :
      (log : List (WalRecord E))
      → All (IsSettled j) log
      → reread_all (j.read_event) (reread_all (j.read_event) log) ≡ reread_all (j.read_event) log
  reread_all_twice [] h = refl
  reread_all_twice (admission id event sequence ∷ rs) h =
      rw (h.0.once, reread_all_twice rs h.1) refl
  reread_all_twice (ack id ∷ rs) h = ap (◌∷◌ (ack id)) (reread_all_twice rs h.1)

  pub reread_all-admissions :
      (es : List (Entry E))
      → reread_all (j.read_event) (admissions es) ≡ admissions (read_back (j.read_event) es)
  unfolding admissions
  reread_all-admissions [] = refl
  reread_all-admissions (e ∷ es) =
      ap (◌∷◌ (admission (e.id) (j.read_event (e.event)) (e.sequence))) (reread_all-admissions es)

  pub admissions-IsSettled :
      (keep : Entry E → Bool) (log : List (WalRecord E))
      → All (IsSettled j) log
      → All (IsSettled j) (admissions (retain keep (admitted log)))
  unfolding admissions admitted
  admissions-IsSettled keep [] h = tt
  admissions-IsSettled keep (admission id event sequence ∷ rs) h =
      if-both (λ es. All (IsSettled j) (admissions es))
        {b = keep (record { id = id; event = event; sequence = sequence })}
        (λ _. (h.0, admissions-IsSettled keep rs h.1)) (λ _. admissions-IsSettled keep rs h.1)
  admissions-IsSettled keep (ack id ∷ rs) h = admissions-IsSettled keep rs h.1
