-- ===== src/Access/Reason.antt =====
-- phira-mp-plus-server/src/ban.rs: the texts of reasons. The standard library's tests of characters are the
-- fields of a `Chars`.
pub mod Laws
use phira_mp_plus.Common.{ℕ, List, [], ◌∷◌, ◌++◌, Bool, true, false, not, ◌&&◌, if◌then◌else◌, ◌≡◌}
use phira_mp_plus.Wire.Text.{Text}

-- `char::is_control` and `char::is_whitespace`.
pub record Chars : Type 0 where
  pub is_control : ℕ → Bool
  pub is_whitespace : ℕ → Bool

-- `DEFAULT_BAN_REASON`
abbrev pub default_ban_reason : Text
default_ban_reason = 0x8fdd ∷ 0x53cd ∷ 0x670d ∷ 0x52a1 ∷ 0x5668 ∷ 0x89c4 ∷ 0x5219 ∷ []

abbrev pub is_empty : Text → Bool
is_empty [] = true
is_empty (c ∷ cs) = false

module _ (chars : Chars) where
  unfoldable pub trim_start : Text → Text
  trim_start [] = []
  trim_start (c ∷ cs) = let rest = trim_start cs in if chars.is_whitespace c then rest else c ∷ cs

  unfoldable pub trim_end : Text → Text
  trim_end [] = []
  trim_end (c ∷ cs) =
      let rest = trim_end cs in if is_empty rest && chars.is_whitespace c then [] else c ∷ rest

  -- `str::trim`
  abbrev pub trim : Text → Text
  trim t = trim_end (trim_start t)

  -- `chars().last().is_some_and(char::is_whitespace)`
  unfoldable pub ends_in_space : Text → Bool
  ends_in_space [] = false
  ends_in_space (c ∷ []) = chars.is_whitespace c
  ends_in_space (c ∷ d ∷ cs) = ends_in_space (d ∷ cs)

  -- A space for the control characters that have been left out.
  unfoldable pub separated : Text → Bool → Text
  separated normalized pending_space =
      if pending_space && not (is_empty normalized) && not (ends_in_space normalized)
      then normalized ++ b' ' ∷ []
      else normalized

  -- The loop of `normalize_reason`.
  unfoldable pub without_controls : Text → Bool → Text → Text
  without_controls normalized pending_space [] = normalized
  without_controls normalized pending_space (ch ∷ cs) =
      let left_out = without_controls normalized true cs in
      let kept = without_controls (separated normalized pending_space ++ ch ∷ []) false cs in
      if chars.is_control ch then left_out else kept

  unfoldable pub normalize_reason : Text → Text
  normalize_reason reason =
      let normalized = trim (without_controls [] false (trim reason)) in
      if is_empty normalized then default_ban_reason else normalized
