-- ===== src/Room/WellFormed/Steps.antt =====
-- phira-mp-plus-server/src/room_actor/handler.rs: the parts that the commands share keep a room well-formed.
use phira_mp_plus.Common.{◌≡◌, ℤ, arith}
use phira_mp_plus.Room.State.{Lifecycle, Actor, Env, bump}
use phira_mp_plus.Room.Answer.{Origin, Step, guarded}
use phira_mp_plus.Room.Play.{with_lifecycle}
use phira_mp_plus.Room.WellFormed.{IsRound, is_playing, IsWellFormed}

abbrev pub Keeps : Step → Type 0
Keeps st = IsWellFormed (st.actor)

pub bump-IsWellFormed : (s : Actor) → IsWellFormed s → IsWellFormed (bump s)
unfolding bump IsWellFormed
bump-IsWellFormed s h = h

pub with_lifecycle-IsWellFormed :
    (s : Actor) (l : Lifecycle)
    → is_playing l ≡ is_playing (s.state.lifecycle)
    → IsRound l
    → IsWellFormed s
    → IsWellFormed (with_lifecycle s l)
unfolding IsWellFormed
with_lifecycle-IsWellFormed s l e r h = ground arith

pub IsRound-of : (s : Actor) (l : Lifecycle) → s.state.lifecycle ≡ l → IsWellFormed s → IsRound l
unfolding IsWellFormed
IsRound-of s l e h = rw (← e) (h.0)

pub guarded-Keeps :
    (env : Env) (origin : Origin) (uid : ℤ) (s : Actor) (st : Step)
    → IsWellFormed s
    → Keeps st
    → Keeps (guarded env origin uid s st)
unfolding guarded
guarded-Keeps env origin uid s st h k = ground arith

-- A step within the same phase.
pub bump_with-IsWellFormed :
    (s : Actor) (l l' : Lifecycle)
    → s.state.lifecycle ≡ l
    → is_playing l' ≡ is_playing l
    → IsRound l'
    → IsWellFormed s
    → IsWellFormed (with_lifecycle (bump s) l')
unfolding bump
bump_with-IsWellFormed s l l' e p r h =
    with_lifecycle-IsWellFormed (bump s) l' (rw e p) r (bump-IsWellFormed s h)

-- What the well-formedness of a room reads.
pub same-IsWellFormed :
    (s t : Actor)
    → t.state.lifecycle ≡ s.state.lifecycle
    → t.state.playing_started_at ≡ s.state.playing_started_at
    → t.state.playing_timeout_deadline ≡ s.state.playing_timeout_deadline
    → IsWellFormed s
    → IsWellFormed t
unfolding IsWellFormed
same-IsWellFormed s t e f g h = rw (e, f, g) h
