-- ===== src/Room/Progress.antt =====
-- phira-mp-plus-server/src/room_actor/handler.rs and mailbox.rs: the notices of a round's progress, and what
-- `run_lifecycle_maintenance` does beside its two timeouts.
use phira_mp_plus.Common.{
  ℕ, ◌-◌, List, [], ◌∷◌, ◌++◌, none, some, ℤ, ok, if◌then◌else◌, leb, retain,
}
use phira_mp_plus.Wire.Text.{Text}
use phira_mp_plus.Room.State.{playing, Actor, Env, Effect, progress_notice}
use phira_mp_plus.Room.Ids.{has, set_key}
use phira_mp_plus.Room.Answer.{Step, progress_registered, empty}
use phira_mp_plus.Room.Departure.{find_member}

-- `send_progress_notice`
unfoldable pub send_progress_notice : Env → Actor → ℤ → List Effect
send_progress_notice env s uid = elim (s.state.lifecycle) [
  | playing results aborted ↦ (elim (s.state.playing_started_at) [
    | none ↦ []
    | some started ↦ elim (find_member uid env) [ none ↦ [] | some u ↦ progress_notice uid ∷ [] ]
  ])
  | _ ↦ []
]

-- `RegisterProgress`
unfoldable pub register_progress : Env → ℤ → Actor → Step
register_progress env uid s = record {
  actor = record s {
    state = record (s.state) {
      progress_subscribers = elim (s.state.lifecycle) [
        | playing results aborted ↦ set_key uid 0 (s.state.progress_subscribers)
        | _ ↦ s.state.progress_subscribers
      ];
    };
  };
  effects = send_progress_notice env s uid;
  answer = ok progress_registered;
}

-- The names of the users who are no longer in the room are forgotten; so is their live data, which is not
-- part of the state here.
unfoldable pub prune : Actor → Actor
prune s = record s {
  display_names =
      retain (λ (entry : ℤ × Text). has entry.0 (s.state.users ++ s.state.monitors))
        (s.display_names);
}

-- The subscribers who have had no notice for half a minute.
unfoldable pub due_subscribers : ℕ → List (ℤ × ℕ) → List ℤ
due_subscribers now [] = []
due_subscribers now ((uid, last) ∷ subscribers) =
    let rest = due_subscribers now subscribers in
    if leb 30000 (now - last) then uid ∷ rest else rest

-- They have one now.
unfoldable pub mark_told : ℕ → List ℤ → List (ℤ × ℕ) → List (ℤ × ℕ)
mark_told now [] subscribers = subscribers
mark_told now (uid ∷ ids) subscribers = mark_told now ids (set_key uid now subscribers)

unfoldable pub send_notices : Env → Actor → List ℤ → List Effect
send_notices env s [] = []
send_notices env s (uid ∷ ids) =
    let rest = send_notices env s ids in send_progress_notice env s uid ++ rest

-- The end of the maintenance: the subscribers of a round are told, and without a round there are none.
unfoldable pub tell_progress : Env → Actor → Step
tell_progress env s =
    let due = due_subscribers env.now (s.state.progress_subscribers) in
    record {
      actor = record s {
        state = record (s.state) {
          progress_subscribers = elim (s.state.lifecycle) [
            | playing results aborted ↦ mark_told env.now due (s.state.progress_subscribers)
            | _ ↦ []
          ];
        };
      };
      effects = send_notices env s due;
      answer = ok empty;
    }
