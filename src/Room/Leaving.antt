-- ===== src/Room/Leaving.antt =====
-- phira-mp-plus-server/src/room_actor/handler.rs: who is gone from a room after `RemoveUser`.
use phira_mp_plus.Common.{
  ℕ, suc, zero, refl, ◌≡◌, List, [], ◌∷◌, Bool, true, false, not, ◌&&◌, Option, none, some, ℤ,
  beq_ℤ, beq_ℤ_iff, arith, get_elem?,
}
use phira_mp_plus.Room.State.{Actor, Env, Peer, Effect, bump}
use phira_mp_plus.Room.Ids.{has, has_key, remove_id, remove_key, has-remove_id}
use phira_mp_plus.Room.Answer.{Origin, guarded, origin_stale}
use phira_mp_plus.Room.Rounds.{
  find_peer, next_host, cycle_host, end_round, settle, set_playing_deadline,
}
use phira_mp_plus.Room.Start.{
  check_all_ready, try_start, fail_start, name_round, finish_admin_start, enter_playing,
}
use phira_mp_plus.Room.Play.{is_host}
use phira_mp_plus.Common.Tests.{if-both}
use phira_mp_plus.Room.WellFormed.Departure.{member-each}
use phira_mp_plus.Room.Departure.{
  find_member, leave, without, should_drop, strike, unsubscribe, transfer_host, replace_host,
  depart, remove_user, is_empty, expel, kick_user,
}

-- Neither among the users nor among the monitors of a room, without a name there and not told of its rounds'
-- progress.
unfoldable pub IsGone : ℤ → Actor → Type 0
IsGone uid s =
    (has uid (s.state.users) ≡ false)
    × (has uid (s.state.monitors) ≡ false)
    × (has_key uid (s.display_names) ≡ false)
    × (has_key uid (s.state.progress_subscribers) ≡ false)

remove_key-gone : {V : Type 0} (x : ℤ) (m : List (ℤ × V)) → has_key x (remove_key x m) ≡ false
unfolding has_key remove_key
remove_key-gone x [] = refl
remove_key-gone x ((y, v) ∷ m) = ground (arith, remove_key-gone x m)

remove_id-gone : (x : ℤ) (xs : List ℤ) → has x (remove_id x xs) ≡ false
remove_id-gone x xs = ground (arith, has-remove_id x x xs, beq_ℤ_iff x x)

unsubscribe-IsGone : (uid : ℤ) (s : Actor) → IsGone uid (unsubscribe uid (strike uid s))
unfolding unsubscribe strike IsGone
unsubscribe-IsGone uid s = (
  remove_id-gone uid (s.state.users),
  remove_id-gone uid (s.state.monitors),
  remove_key-gone uid (s.display_names),
  remove_key-gone uid (s.state.progress_subscribers),
)

replace_host-IsGone :
    (uid : ℤ) (dropped : Bool) (remaining : List Peer) (s : Actor)
    → IsGone uid s
    → IsGone uid (replace_host uid dropped remaining s).0
unfolding replace_host transfer_host bump IsGone
replace_host-IsGone uid dropped remaining s h = ground arith

none_subscribed : (uid : ℤ) → has_key {V = ℕ} uid [] ≡ false
unfolding has_key
none_subscribed uid = refl

-- The check of a round leaves the members alone.
check_all_ready-IsGone :
    (env : Env) (uid : ℤ) (s : Actor) → IsGone uid s → IsGone uid (check_all_ready env s).0
unfolding check_all_ready try_start fail_start name_round finish_admin_start enter_playing
    set_playing_deadline settle end_round cycle_host IsGone
check_all_ready-IsGone env uid s h = ground (arith, none_subscribed uid)

find_peer-without : (uid : ℤ) (us : List Peer) → find_peer uid (without uid us) ≡ none
unfolding find_peer without
find_peer-without uid [] = refl
find_peer-without uid (u ∷ us) = ground (arith, find_peer-without uid us)

get_elem?-find_peer :
    (uid : ℤ) (us : List Peer) (i : ℕ) (u : Peer)
    → find_peer uid us ≡ none
    → get_elem? us i ≡ some u
    → beq_ℤ (u.id) uid ≡ false
unfolding find_peer
get_elem?-find_peer uid [] i u h e = ground arith
get_elem?-find_peer uid (v ∷ us) zero u h e = ground arith
get_elem?-find_peer uid (v ∷ us) (suc i) u h e = get_elem?-find_peer uid us i u (ground arith) e

next_host-find_peer :
    (uid : ℤ) (host : Option ℤ) (us : List Peer) (u : Peer)
    → find_peer uid us ≡ none
    → next_host host us ≡ some u
    → beq_ℤ (u.id) uid ≡ false
unfolding next_host
next_host-find_peer uid host [] u h e = ground arith
next_host-find_peer uid host (v ∷ us) u h e = get_elem?-find_peer uid (v ∷ us) _ u h e

cycle_host-is_host :
    (env : Env) (uid : ℤ) (s : Actor)
    → find_peer uid (env.peers) ≡ none
    → is_host s uid ≡ false
    → is_host (cycle_host env s).0 uid ≡ false
unfolding cycle_host
cycle_host-is_host env uid s h k =
    member-each (λ (p : Actor × List Effect). is_host p.0 uid ≡ false)
      (next_host (s.state.control.host_id) (env.peers)) (λ _. k)
      (λ u e. next_host-find_peer uid (s.state.control.host_id) (env.peers) u h e)

settle-is_host :
    (env : Env) (uid : ℤ) (s : Actor)
    → find_peer uid (env.peers) ≡ none
    → is_host s uid ≡ false
    → is_host (settle env s).0 uid ≡ false
unfolding settle end_round
settle-is_host env uid s h k =
    if-both (λ (p : Actor × List Effect). is_host p.0 uid ≡ false)
      (λ _. cycle_host-is_host env uid (end_round s) h k) (λ _. k)

-- The check of a round gives the room to no one who is not there.
check_all_ready-is_host :
    (env : Env) (uid : ℤ) (s : Actor)
    → find_peer uid (env.peers) ≡ none
    → is_host s uid ≡ false
    → is_host (check_all_ready env s).0 uid ≡ false
unfolding check_all_ready try_start fail_start name_round finish_admin_start enter_playing
    set_playing_deadline
check_all_ready-is_host env uid s h k = ground (arith, settle-is_host env uid s h k)

leave-find_peer :
    (uid : ℤ) (monitor : Bool) (env : Env)
    → (monitor ≡ true → find_peer uid (env.peers) ≡ none)
    → find_peer uid ((leave uid monitor env).peers) ≡ none
unfolding leave
leave-find_peer uid true env h = h refl
leave-find_peer uid false env h = find_peer-without uid (env.peers)

-- What takes the room from a host who leaves.
replace_host-is_host :
    (uid : ℤ) (dropped : Bool) (remaining : List Peer) (s : Actor)
    → find_peer uid remaining ≡ none
    → dropped ≡ false
    → (is_empty remaining ≡ true → s.state.control.persistent_empty ≡ true)
    → s.state.control.tournament ≡ false
    → is_host (replace_host uid dropped remaining s).0 uid ≡ false
unfolding replace_host transfer_host bump find_peer
replace_host-is_host uid dropped [] s h d p t = ground arith
replace_host-is_host uid dropped (u ∷ us) s h d p t = ground arith

depart-IsGone :
    (env : Env) (u : Peer) (uid : ℤ) (monitor : Bool) (s : Actor)
    → IsGone uid ((depart env u uid monitor s).actor)
unfolding depart
depart-IsGone env u uid monitor s =
    check_all_ready-IsGone (leave uid monitor env) uid _
      (replace_host-IsGone uid (should_drop uid monitor env s) _ _ (unsubscribe-IsGone uid s))

kept-persistent :
    (uid : ℤ) (env : Env) (s : Actor)
    → should_drop uid false env s ≡ false
    → is_empty ((leave uid false env).peers) ≡ true
    → (unsubscribe uid (strike uid s)).state.control.persistent_empty ≡ true
unfolding should_drop unsubscribe strike
kept-persistent uid env s d e = ground arith

tournament-kept :
    (uid : ℤ) (s : Actor)
    → s.state.control.tournament ≡ false
    → (unsubscribe uid (strike uid s)).state.control.tournament ≡ false
unfolding unsubscribe strike
tournament-kept uid s t = t

depart-is_host :
    (env : Env) (u : Peer) (uid : ℤ) (s : Actor)
    → should_drop uid false env s ≡ false
    → s.state.control.tournament ≡ false
    → is_host ((depart env u uid false s).actor) uid ≡ false
unfolding depart
depart-is_host env u uid s d t =
    let gone = leave-find_peer uid false env (λ e. ground arith) in
    check_all_ready-is_host (leave uid false env) uid _ gone (
      replace_host-is_host uid (should_drop uid false env s) _ (unsubscribe uid (strike uid s)) gone
        d (kept-persistent uid env s d) (tournament-kept uid s t))

-- Whether `uid` is the host of a room that goes on without the player, outside a tournament.
unfoldable pub stays_host : Env → ℤ → Bool → Actor → Actor → Bool
stays_host env uid monitor s t =
    not monitor
    && not (should_drop uid monitor env s)
    && not (s.state.control.tournament)
    && is_host t uid

depart-stays_host :
    (env : Env) (u : Peer) (uid : ℤ) (monitor : Bool) (s : Actor)
    → stays_host env uid monitor s ((depart env u uid monitor s).actor) ≡ false
unfolding stays_host
depart-stays_host env u uid true s = refl
depart-stays_host env u uid false s = ground (arith, depart-is_host env u uid s)

bumped-stays_host :
    (env : Env) (uid : ℤ) (monitor : Bool) (s t : Actor)
    → stays_host env uid monitor (bump s) t ≡ false
    → stays_host env uid monitor s t ≡ false
unfolding stays_host should_drop bump
bumped-stays_host env uid monitor s t h = h

remove_user-connected :
    (env : Env) (uid : ℤ) (monitor : Bool) (o : Origin) (s : Actor) (u : Peer)
    → find_member uid env ≡ some u
    → env.late ≡ false
    → origin_stale env o uid ≡ false
    → remove_user env uid monitor o s ≡ depart env u uid monitor (bump s)
unfolding remove_user guarded
remove_user-connected env uid monitor o s u m l e = ground (arith, m, l, e)

-- Whoever is connected and leaves a room in time, with a session that is still the bound one, is afterwards
-- neither among its users nor among its monitors, has no display name there and is not told of its rounds'
-- progress; and a player is not its host either, unless the room is dropped or is a tournament.
pub remove_user-IsGone :
    (env : Env) (uid : ℤ) (monitor : Bool) (o : Origin) (s : Actor) (u : Peer)
    → find_member uid env ≡ some u
    → env.late ≡ false
    → origin_stale env o uid ≡ false
    → IsGone uid ((remove_user env uid monitor o s).actor)
      × (stays_host env uid monitor s ((remove_user env uid monitor o s).actor) ≡ false)
remove_user-IsGone env uid monitor o s u m l e =
    rw (remove_user-connected env uid monitor o s u m l e) (
      depart-IsGone env u uid monitor (bump s),
      bumped-stays_host env uid monitor s _ (depart-stays_host env u uid monitor (bump s)),
    )

-- A kick leaves the lists of the room's members as they are.
kick_user-members :
    (env : Env) (uid : ℤ) (monitor : Bool) (s : Actor)
    → let t = (kick_user env uid monitor s).actor in
      (t.state.users ≡ s.state.users) × (t.state.monitors ≡ s.state.monitors)
unfolding kick_user expel transfer_host bump
kick_user-members env uid monitor s = ground arith
