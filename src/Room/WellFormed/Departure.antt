-- ===== src/Room/WellFormed/Departure.antt =====
-- phira-mp-plus-server/src/room_actor/handler.rs: the removal and the kick of a member keep a room well-formed.
use phira_mp_plus.Common.{refl, ◌≡◌, List, Bool, Option, none, some, ◌||◌, ℤ, arith}
use phira_mp_plus.Room.State.{Actor, Env, Peer, bump}
use phira_mp_plus.Room.Ids.{has}
use phira_mp_plus.Room.Answer.{Origin}
use phira_mp_plus.Room.Departure.{
  find_member, leave, should_drop, strike, unsubscribe, transfer_host, replace_host, depart,
  remove_ghost, remove_user, expel, kick_user,
}
use phira_mp_plus.Common.Tests.{if-both}
use phira_mp_plus.Room.WellFormed.{IsWellFormed, check_all_ready-IsWellFormed}
use phira_mp_plus.Room.WellFormed.Steps.{Keeps, bump-IsWellFormed, guarded-Keeps, same-IsWellFormed}

replace_host-IsWellFormed :
    (uid : ℤ) (dropped : Bool) (remaining : List Peer) (s : Actor)
    → IsWellFormed s
    → IsWellFormed (replace_host uid dropped remaining s).0
unfolding replace_host transfer_host bump IsWellFormed
replace_host-IsWellFormed uid dropped remaining s h = ground arith

strike-IsWellFormed : (uid : ℤ) (s : Actor) → IsWellFormed s → IsWellFormed (strike uid s)
unfolding strike
strike-IsWellFormed uid s h = same-IsWellFormed s _ refl refl refl h

unsubscribe-IsWellFormed : (uid : ℤ) (s : Actor) → IsWellFormed s → IsWellFormed (unsubscribe uid s)
unfolding unsubscribe
unsubscribe-IsWellFormed uid s h = same-IsWellFormed s _ refl refl refl h

depart-Keeps :
    (env : Env) (u : Peer) (uid : ℤ) (monitor : Bool) (s : Actor)
    → IsWellFormed s
    → Keeps (depart env u uid monitor s)
unfolding depart
depart-Keeps env u uid monitor s h = check_all_ready-IsWellFormed (leave uid monitor env) _ (
    replace_host-IsWellFormed uid (should_drop uid monitor env s) _ _
      (unsubscribe-IsWellFormed uid _ (strike-IsWellFormed uid s h)))

remove_ghost-Keeps : (uid : ℤ) (s : Actor) → IsWellFormed s → Keeps (remove_ghost uid s)
unfolding remove_ghost
remove_ghost-Keeps uid s h =
    if-both Keeps {b = has uid (s.state.users) || has uid (s.state.monitors)}
      (λ _. strike-IsWellFormed uid s h) (λ _. h)

-- A property of a user who is connected or not.
pub member-each {ℓ} :
    {A : Type ℓ} (P : A → Type 0) (m : Option Peer) {a : A} {f : Peer → A}
    → (m ≡ none → P a)
    → ((u : Peer) → m ≡ some u → P (f u))
    → P (elim m [ none ↦ a | some u ↦ f u ])
member-each P none h k = h refl
member-each P (some u) h k = k u refl

-- The removal of a member keeps a well-formed room well-formed.
pub remove_user-Keeps :
    (env : Env) (uid : ℤ) (monitor : Bool) (o : Origin) (s : Actor)
    → IsWellFormed s
    → Keeps (remove_user env uid monitor o s)
unfolding remove_user
remove_user-Keeps env uid monitor o s h =
    let b = bump-IsWellFormed s h in
    guarded-Keeps env o uid s _ h (
      member-each Keeps (find_member uid env) (λ _. remove_ghost-Keeps uid (bump s) b)
        (λ u _. depart-Keeps env u uid monitor (bump s) b))

expel-Keeps :
    (env : Env) (u : Peer) (uid : ℤ) (monitor : Bool) (s : Actor)
    → IsWellFormed s
    → Keeps (expel env u uid monitor s)
unfolding expel transfer_host bump IsWellFormed
expel-Keeps env u uid monitor s h = ground arith

-- The kick of a member keeps a well-formed room well-formed.
pub kick_user-Keeps :
    (env : Env) (uid : ℤ) (monitor : Bool) (s : Actor)
    → IsWellFormed s
    → Keeps (kick_user env uid monitor s)
unfolding kick_user
kick_user-Keeps env uid monitor s h =
    member-each Keeps (find_member uid env) (λ _. h)
      (λ u _. expel-Keeps env u uid monitor (bump s) (bump-IsWellFormed s h))
