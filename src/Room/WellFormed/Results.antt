-- ===== src/Room/WellFormed/Results.antt =====
-- phira-mp-plus-server/src/room_actor/handler.rs: the results and aborts of players keep a room well-formed.
use phira_mp_plus.Common.{◌≡◌, refl, List, [], ◌∷◌, false, ℤ, beq_ℤ_iff, arith}
use phira_mp_plus.Wire.Commands.RoomData.{Record}
use phira_mp_plus.Room.State.{playing, Actor, Env}
use phira_mp_plus.Room.Ids.{
  has, has_key, add_id, set_key, add_id-IsDistinct, has_key-set_key, has-add_id,
}
use phira_mp_plus.Room.Answer.{Origin}
use phira_mp_plus.Room.Play.{
  submit_result, late_result, commit_result, abort_round, extend_deadline,
}
use phira_mp_plus.Common.Tests.{if-both}
use phira_mp_plus.Room.WellFormed.{
  IsDistinctKeys, IsRound, IsWellFormed, lifecycle-each, check_all_ready-IsWellFormed,
}
use phira_mp_plus.Room.WellFormed.Steps.{
  Keeps, bump-IsWellFormed, with_lifecycle-IsWellFormed, IsRound-of, guarded-Keeps,
  bump_with-IsWellFormed,
}

-- A player without a result aborts.
abort-IsRound :
    (uid : ℤ) (results : List (ℤ × Record)) (aborted : List ℤ)
    → has_key uid results ≡ false
    → IsRound (playing results aborted)
    → IsRound (playing results (add_id uid aborted))
abort-IsRound uid results aborted e (k, (d, j)) = (
  k,
  (
    add_id-IsDistinct uid aborted d,
    λ v f. ground (arith, has-add_id v uid aborted, beq_ℤ_iff uid v, j v),
  ),
)

set_key-IsDistinctKeys :
    (x : ℤ) (r : Record) (results : List (ℤ × Record))
    → IsDistinctKeys results
    → IsDistinctKeys (set_key x r results)
unfolding set_key has_key
set_key-IsDistinctKeys x r [] h = (refl, tt)
set_key-IsDistinctKeys x r ((y, q) ∷ results) h = ground (
  arith,
  set_key-IsDistinctKeys x r results,
  has_key-set_key y x r results,
  beq_ℤ_iff y x,
  beq_ℤ_iff x y,
)

-- A player who has not aborted has a result.
result-IsRound :
    (r : Record) (results : List (ℤ × Record)) (aborted : List ℤ)
    → has (r.player) aborted ≡ false
    → IsRound (playing results aborted)
    → IsRound (playing (set_key (r.player) r results) aborted)
result-IsRound r results aborted e (k, (d, j)) = (
  set_key-IsDistinctKeys (r.player) r results k,
  (d, λ v f. ground (arith, has_key-set_key v (r.player) r results, beq_ℤ_iff (r.player) v, j v)),
)

late_result-Keeps :
    (env : Env) (uid : ℤ) (s : Actor) → IsWellFormed s → Keeps (late_result env uid s)
unfolding late_result
late_result-Keeps env uid s h =
    lifecycle-each Keeps (s.state.lifecycle) (λ _. h) (λ _ _ _. h)
      (λ results aborted e.
        if-both Keeps (λ _. h)
          (λ free. check_all_ready-IsWellFormed env _ (
            bump-IsWellFormed _ (
              with_lifecycle-IsWellFormed s (playing results (add_id uid aborted)) (ground arith)
                (abort-IsRound uid results aborted (ground arith)
                  (IsRound-of s (playing results aborted) e h))
                h))))

extend_deadline-IsWellFormed :
    (env : Env) (results : List (ℤ × Record)) (s : Actor)
    → IsWellFormed s
    → IsWellFormed (extend_deadline env results s)
unfolding extend_deadline IsWellFormed
extend_deadline-IsWellFormed env results s h = ground arith

commit_result-Keeps :
    (env : Env) (r : Record) (s : Actor) → IsWellFormed s → Keeps (commit_result env r s)
unfolding commit_result
commit_result-Keeps env r s h =
    let b = bump-IsWellFormed s h in
    lifecycle-each Keeps (s.state.lifecycle) (λ _. b) (λ _ _ _. b)
      (λ results aborted e.
        if-both Keeps (λ _. b)
          (λ free.
            let kept =
              bump_with-IsWellFormed s (playing results aborted)
                (playing (set_key (r.player) r results) aborted) e refl
                (result-IsRound r results aborted free (IsRound-of s (playing results aborted) e h))
                h in
            if-both Keeps (λ _. kept)
              (λ _.
                check_all_ready-IsWellFormed env _
                  (extend_deadline-IsWellFormed env (set_key (r.player) r results) _ kept))))

pub submit_result-Keeps :
    (env : Env) (r : Record) (origin : Origin) (s : Actor)
    → IsWellFormed s
    → Keeps (submit_result env r origin s)
unfolding submit_result
submit_result-Keeps env r origin s h =
    ground (arith, late_result-Keeps env (r.player) s, commit_result-Keeps env r s)

pub abort_round-Keeps :
    (env : Env) (uid : ℤ) (origin : Origin) (s : Actor)
    → IsWellFormed s
    → Keeps (abort_round env uid origin s)
unfolding abort_round
abort_round-Keeps env uid origin s h =
    let b = bump-IsWellFormed s h in
    guarded-Keeps env origin uid s _ h (
      lifecycle-each Keeps (s.state.lifecycle) (λ _. b) (λ _ _ _. b)
        (λ results aborted e.
          if-both Keeps (λ _. b)
            (λ free.
              if-both Keeps (λ _. b)
                (λ _. check_all_ready-IsWellFormed env _ (
                  bump_with-IsWellFormed s (playing results aborted)
                    (playing results (add_id uid aborted)) e refl
                    (abort-IsRound uid results aborted free
                      (IsRound-of s (playing results aborted) e h))
                    h)))))
