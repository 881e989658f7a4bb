-- ===== src/Room/WellFormed/Commands.antt =====
-- phira-mp-plus-server/src/room_actor/handler.rs: the commands before a round keep a room well-formed.
use phira_mp_plus.Common.{
  ◌≡◌, refl, List, [], ◌∷◌, Bool, true, false, not, Option, none, some, ℤ, arith, if◌then◌else◌,
}
use phira_mp_plus.Room.State.{wait_for_ready, Actor, Env, bump}
use phira_mp_plus.Room.Ids.{
  has, add_id, remove_id, IsDistinct, add_id-IsDistinct, remove_id-IsDistinct,
}
use phira_mp_plus.Room.Start.{is_hosted}
use phira_mp_plus.Room.Answer.{Origin}
use phira_mp_plus.Room.Play.{
  set_ready, cancel_ready, host_start, start_room, enter_ready_phase, cancel_start, cancelled_game,
  enter_waiting, is_selecting, is_reserved, is_host, is_none,
}
use phira_mp_plus.Common.Tests.{if-both}
use phira_mp_plus.Room.WellFormed.{
  is_playing, IsWellFormed, lifecycle-each, check_all_ready-IsWellFormed,
}
use phira_mp_plus.Room.WellFormed.Steps.{
  Keeps, bump-IsWellFormed, IsRound-of, guarded-Keeps, bump_with-IsWellFormed,
}

pub set_ready-Keeps :
    (env : Env) (uid : ℤ) (origin : Origin) (s : Actor)
    → IsWellFormed s
    → Keeps (set_ready env uid origin s)
unfolding set_ready
set_ready-Keeps env uid origin s h =
    let b = bump-IsWellFormed s h in
    guarded-Keeps env origin uid s _ h (
      lifecycle-each Keeps (s.state.lifecycle) (λ _. b)
        (λ ready admin e.
          if-both Keeps (λ _. b)
            (λ _. check_all_ready-IsWellFormed env _ (
              bump_with-IsWellFormed s (wait_for_ready ready admin)
                (wait_for_ready (add_id uid ready) admin) e refl
                (add_id-IsDistinct uid ready (IsRound-of s (wait_for_ready ready admin) e h)) h)))
        (λ _ _ _. b))

cancelled_game-IsWellFormed :
    (s : Actor)
    → is_playing (s.state.lifecycle) ≡ false
    → IsWellFormed s
    → IsWellFormed (cancelled_game (bump s))
unfolding bump IsWellFormed
cancelled_game-IsWellFormed s p h = ground arith

pub cancel_ready-Keeps :
    (env : Env) (uid : ℤ) (origin : Origin) (s : Actor)
    → IsWellFormed s
    → Keeps (cancel_ready env uid origin s)
unfolding cancel_ready
cancel_ready-Keeps env uid origin s h =
    let b = bump-IsWellFormed s h in
    guarded-Keeps env origin uid s _ h (
      lifecycle-each Keeps (s.state.lifecycle) (λ _. b)
        (λ ready admin e.
          if-both Keeps {b = not (has uid ready)} (λ _. b)
            (λ _.
              if-both Keeps {b = is_host s uid}
                (λ _. cancelled_game-IsWellFormed s (ground arith) h)
                (λ _.
                  bump_with-IsWellFormed s (wait_for_ready ready admin)
                    (wait_for_ready (remove_id uid ready) admin) e refl
                    (remove_id-IsDistinct uid ready (IsRound-of s (wait_for_ready ready admin) e h))
                    h)))
        (λ _ _ _. b))

-- The phase of waiting for the players.
enter_waiting-IsWellFormed :
    (env : Env) (ready : List ℤ) (admin : Bool) (s : Actor)
    → IsDistinct ready
    → is_selecting (s.state.lifecycle) ≡ true
    → IsWellFormed s
    → IsWellFormed (enter_waiting env ready admin s)
unfolding enter_waiting IsWellFormed
enter_waiting-IsWellFormed env ready admin s d e h = ground arith

entering :
    (s : Actor)
    → not (is_selecting (s.state.lifecycle)) ≡ false
    → is_selecting ((bump s).state.lifecycle) ≡ true
unfolding bump
entering s e = ground arith

pending-IsWellFormed :
    (s : Actor)
    → IsWellFormed s
    → IsWellFormed (record (bump s) {
      state = record ((bump s).state) {
        control = record ((bump s).state.control) { admin_start_pending = true };
      };
    })
unfolding bump IsWellFormed
pending-IsWellFormed s h = h

host_set : (host : Option ℤ) → IsDistinct (elim host [ none ↦ [] | some h ↦ h ∷ [] ])
unfolding has
host_set none = tt
host_set (some h) = (refl, tt)

named-IsWellFormed :
    (env : Env) (s : Actor)
    → IsWellFormed s
    → IsWellFormed (
        if is_hosted env.managed
        then record s { state = record (s.state) { round_id = some env.fresh_uuid } }
        else s)
unfolding IsWellFormed
named-IsWellFormed env s h = ground arith

pub host_start-Keeps :
    (env : Env) (uid : ℤ) (origin : Origin) (s : Actor)
    → IsWellFormed s
    → Keeps (host_start env uid origin s)
unfolding host_start has
host_start-Keeps env uid origin s h =
    if-both Keeps {b = is_reserved env.managed} (λ _. h)
      (λ _.
        if-both Keeps {b = not (is_selecting (s.state.lifecycle))} (λ _. h)
          (λ selecting.
            if-both Keeps {b = s.state.control.admin_start_pending} (λ _. h)
              (λ _.
                if-both Keeps {b = is_none (s.state.chart)} (λ _. h)
                  (λ _. guarded-Keeps env origin uid s _ h (
                    check_all_ready-IsWellFormed env _ (
                      named-IsWellFormed env _ (
                        enter_waiting-IsWellFormed env (uid ∷ []) false (bump s) (refl, tt)
                          (entering s selecting) (bump-IsWellFormed s h))))))))

pub start_room-Keeps : (env : Env) (s : Actor) → IsWellFormed s → Keeps (start_room env s)
unfolding start_room
start_room-Keeps env s h =
    if-both Keeps {b = s.state.control.admin_start_pending} (λ _. h)
      (λ _.
        if-both Keeps {b = not (is_selecting (s.state.lifecycle))} (λ _. h)
          (λ selecting.
            if-both Keeps {b = is_none (s.state.chart)} (λ _. h)
              (λ _. check_all_ready-IsWellFormed env _ (
                enter_waiting-IsWellFormed env [] true _ tt (entering s selecting)
                  (pending-IsWellFormed s h)))))

pub enter_ready_phase-Keeps :
    (env : Env) (s : Actor) → IsWellFormed s → Keeps (enter_ready_phase env s)
unfolding enter_ready_phase
enter_ready_phase-Keeps env s h =
    if-both Keeps {b = not (is_selecting (s.state.lifecycle))} (λ _. h)
      (λ selecting.
        if-both Keeps {b = s.state.control.admin_start_pending} (λ _. h)
          (λ _.
            if-both Keeps {b = is_none (s.state.chart)} (λ _. h)
              (λ _.
                enter_waiting-IsWellFormed env _ false (bump s) (host_set (s.state.control.host_id))
                  (entering s selecting) (bump-IsWellFormed s h))))

pub cancel_start-Keeps : (env : Env) (s : Actor) → IsWellFormed s → Keeps (cancel_start env s)
unfolding cancel_start
cancel_start-Keeps env s h =
    lifecycle-each Keeps (s.state.lifecycle) (λ _. h)
      (λ ready admin e. cancelled_game-IsWellFormed s (ground arith) h) (λ _ _ _. h)
