-- ===== src/Access/Bans/Users.antt =====
-- phira-mp-plus-server/src/ban.rs: the reasons of bans survive their repair, and bans hold.
use phira_mp_plus.Common.{
  ℤ, beq_ℤ, int_eq, List, [], ◌∷◌, true, false, none, some, ◌≡◌, refl, arith, if◌then◌else◌,
  Option-cases,
}
use phira_mp_plus.Common.Maps.{get, put, get-put}
use phira_mp_plus.Wire.Text.{Text, text_eq, beq_text, beq_text_iff}
use phira_mp_plus.Access.Store.{ExtensionDataStore, is_some, or_default}
use phira_mp_plus.Access.Reason.{Chars, normalize_reason}
use phira_mp_plus.Access.Reason.Laws.{AreChars, normalize_reason_twice}
use phira_mp_plus.Access.Bans.{
  ban_status_key, ban_reason_key, banned_status, set_ban_record, reason_of, ban_reason,
  repair_values, repair_all, repair_reasons, unwrap_or_default,
}

-- Both fields of a ban are registered.
abbrev pub IsRegistered : ExtensionDataStore → Type 0
IsRegistered s =
    (is_some (get ban_status_key (s.fields)) ≡ true)
    × (is_some (get ban_reason_key (s.fields)) ≡ true)

module _ (chars : Chars) where
  -- The reason of a ban that has been written.
  pub set_ban_record-reason_of :
      (user_id other : ℤ) (status reason : Text) (s : ExtensionDataStore)
      → IsRegistered s
      → ban_reason chars other ((set_ban_record user_id status reason s).1) ≡ (
          if beq_ℤ user_id other
          then (if beq_text status banned_status
              then some (normalize_reason chars reason)
              else none)
          else ban_reason chars other s)
  unfolding set_ban_record ban_reason reason_of
  set_ban_record-reason_of user_id other status reason s h =
      let values = or_default (get user_id (s.user_data)) in
      ground (
        arith,
        get-put other user_id (put ban_status_key status (put ban_reason_key reason values))
            (s.user_data),
        get-put ban_status_key ban_status_key status (put ban_reason_key reason values),
        get-put ban_reason_key ban_status_key status (put ban_reason_key reason values),
        get-put ban_reason_key ban_reason_key reason values,
      )

  repair_values-reason_of :
      (values : List (Text × Text))
      → AreChars chars
      → reason_of chars (some ((repair_values chars values).0)) ≡ reason_of chars (some values)
  unfolding repair_values reason_of
  repair_values-reason_of values a =
      let reason = normalize_reason chars (unwrap_or_default (get ban_reason_key values)) in
      ground (
        arith,
        Option-cases (get ban_reason_key values),
        normalize_reason_twice chars (unwrap_or_default (get ban_reason_key values)) a,
        get-put ban_status_key ban_reason_key reason values,
        get-put ban_reason_key ban_reason_key reason values,
      )

  repair_values_twice :
      (values : List (Text × Text))
      → AreChars chars
      → repair_values chars ((repair_values chars values).0)
        ≡ ((repair_values chars values).0, false)
  unfolding repair_values
  repair_values_twice values a =
      let reason = normalize_reason chars (unwrap_or_default (get ban_reason_key values)) in
      ground (
        arith,
        Option-cases (get ban_reason_key values),
        normalize_reason_twice chars (unwrap_or_default (get ban_reason_key values)) a,
        get-put ban_status_key ban_reason_key reason values,
        get-put ban_reason_key ban_reason_key reason values,
        beq_text_iff reason reason,
      )

  repair_all-reason_of :
      (user_id : ℤ) (m : List (ℤ × List (Text × Text)))
      → AreChars chars
      → reason_of chars (get user_id ((repair_all chars m).0)) ≡ reason_of chars (get user_id m)
  unfolding repair_all get
  repair_all-reason_of user_id [] a = refl
  repair_all-reason_of user_id ((u, values) ∷ m) a =
      ground (arith, repair_values-reason_of values a, repair_all-reason_of user_id m a)

  repair_all_twice :
      (m : List (ℤ × List (Text × Text)))
      → AreChars chars
      → repair_all chars ((repair_all chars m).0) ≡ ((repair_all chars m).0, 0)
  unfolding repair_all
  repair_all_twice [] a = refl
  repair_all_twice ((u, values) ∷ m) a =
      ground (arith, repair_values_twice values a, repair_all_twice m a)

  -- With tests of characters that call no space a control character and find the default reason in
  -- order, the repair of the reasons changes neither who is banned nor any reason that is given, and
  -- leaves nothing for a second repair.
  pub repair_reasons-ban_reason :
      (user_id : ℤ) (s : ExtensionDataStore)
      → AreChars chars
      → (ban_reason chars user_id ((repair_reasons chars s).0) ≡ ban_reason chars user_id s)
        × (repair_reasons chars ((repair_reasons chars s).0) ≡ ((repair_reasons chars s).0, 0))
  unfolding repair_reasons ban_reason
  repair_reasons-ban_reason user_id s a = (
    repair_all-reason_of user_id (s.user_data) a,
    ground (arith, repair_all_twice (s.user_data) a),
  )
