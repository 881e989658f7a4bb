-- ===== src/Room/History.antt =====
-- phira-mp-plus-server/src/room_actor/handler.rs: what `save_round_history` keeps of a round.
use phira_mp_plus.Common.{
  ◌≡◌, refl, List, [], ◌∷◌, ◌++◌, some, ℤ, pos, arith, beq_ℤ_iff, true, false, ◌||◌, Bool, ap, ◌∙◌,
}
use mathlib.Core.Option
use phira_mp_plus.Wire.Text.{Text}
use phira_mp_plus.Wire.Commands.RoomData.{Record}
use phira_mp_plus.Room.State.{Actor, Env, playing, PlayRound, PlayResult}
use phira_mp_plus.Room.Ids.{has_key, has, IsDistinct}
use phira_mp_plus.Room.Rounds.{save_round_history, play_results, abort_results, user_names}
use phira_mp_plus.Room.WellFormed.{IsDisjoint, IsDistinctKeys, IsRound, IsWellFormed}

-- What the history says of a player: who it is, the score, and whether the round was aborted.
abbrev pub Outcome : Type 0
Outcome = ℤ × ℤ × Bool

abbrev outcome : PlayResult → Outcome
outcome r = (r.user_id, r.score, r.aborted)

unfoldable pub outcomes : List PlayResult → List Outcome
outcomes [] = []
outcomes (r ∷ rs) = outcome r ∷ outcomes rs

-- What it should say: the score of every result, and nothing but the fact of every abort.
unfoldable pub expected_outcomes : List (ℤ × Record) → List ℤ → List Outcome
expected_outcomes [] [] = []
expected_outcomes [] (uid ∷ aborted) = (uid, pos 0, true) ∷ expected_outcomes [] aborted
expected_outcomes ((uid, rec) ∷ results) aborted =
    (uid, rec.score, false) ∷ expected_outcomes results aborted

-- Whom the history tells of.
unfoldable pub players : List Outcome → List ℤ
players [] = []
players ((uid, score, aborted) ∷ os) = uid ∷ players os

IsDisjoint-tail :
    (results : List (ℤ × Record)) (x : ℤ) (aborted : List ℤ)
    → IsDisjoint results (x ∷ aborted)
    → IsDisjoint results aborted
unfolding has
IsDisjoint-tail results x aborted h uid e = ground (arith, h uid)

outcomes-abort_results :
    (names : List (ℤ × Text)) (results : List (ℤ × Record)) (aborted : List ℤ)
    → IsDisjoint results aborted
    → outcomes (abort_results names results aborted) ≡ expected_outcomes [] aborted
unfolding abort_results outcomes expected_outcomes has
outcomes-abort_results names results [] h = refl
outcomes-abort_results names results (x ∷ aborted) h = ground (
  arith,
  outcomes-abort_results names results aborted (IsDisjoint-tail results x aborted h),
  h x,
  beq_ℤ_iff x x,
)

outcomes-play_results :
    (names : List (ℤ × Text)) (results : List (ℤ × Record)) (aborted : List ℤ)
    (rest : List PlayResult)
    → outcomes rest ≡ expected_outcomes [] aborted
    → outcomes (play_results names results ++ rest) ≡ expected_outcomes results aborted
unfolding play_results outcomes expected_outcomes
outcomes-play_results names [] aborted rest h = h
outcomes-play_results names ((uid, rec) ∷ results) aborted rest h =
    ap (λ os. (uid, rec.score, false) ∷ os) (outcomes-play_results names results aborted rest h)

has-players :
    (x : ℤ) (results : List (ℤ × Record)) (aborted : List ℤ)
    → has x (players (expected_outcomes results aborted)) ≡ (has_key x results || has x aborted)
unfolding has has_key players expected_outcomes
has-players x [] [] = refl
has-players x [] (y ∷ aborted) = ground (arith, has-players x [] aborted)
has-players x ((y, rec) ∷ results) aborted = ground (arith, has-players x results aborted)

players-IsDistinct :
    (results : List (ℤ × Record)) (aborted : List ℤ)
    → IsDistinctKeys results
    → IsDistinct aborted
    → IsDisjoint results aborted
    → IsDistinct (players (expected_outcomes results aborted))
unfolding players expected_outcomes has_key
players-IsDistinct [] [] k a d = tt
players-IsDistinct [] (x ∷ aborted) k (n, a) d =
    (has-players x [] aborted ∙ n, players-IsDistinct [] aborted tt a (λ uid e. cc))
players-IsDistinct ((x, rec) ∷ results) aborted (n, k) a d = (
  has-players x results aborted ∙ ground (arith, n, d x, beq_ℤ_iff x x),
  players-IsDistinct results aborted k a (λ uid e. d uid (ground (arith, e))),
)

-- The history of a well-formed round with a chart tells the score of every player who has a result, that
-- every player who has aborted has done so, and nothing of anyone else, and it tells of no player twice.
pub save_round_history-outcomes :
    (env : Env) (names : List (ℤ × Text)) (s : Actor) (results : List (ℤ × Record))
    (aborted : List ℤ) (chart : ℤ)
    → s.state.lifecycle ≡ playing results aborted
    → s.state.chart ≡ some chart
    → IsWellFormed s
    → (Option.map (λ (round : PlayRound). outcomes (round.results)) (save_round_history env names s)
        ≡ some (expected_outcomes results aborted))
      × IsDistinct (players (expected_outcomes results aborted))
unfolding save_round_history IsWellFormed
save_round_history-outcomes env names s results aborted chart e f h =
    let (k, (a, d)) : IsRound (playing results aborted) = rw e at (h.0) in
    let all_names = user_names names env.peers [] in
    (
      rw (e, f)
          (ap some (
            outcomes-play_results all_names results aborted _
              (outcomes-abort_results all_names results aborted d))),
      players-IsDistinct results aborted k a d,
    )
