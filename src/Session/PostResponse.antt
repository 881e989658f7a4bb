-- ===== src/Session/PostResponse.antt =====
-- phira-mp-plus-server/src/official_client_compat/post_response.rs: the corrections that follow a response,
-- in a fixed order. The items here are those of a session; what goes to a user without one takes another
-- way in `schedule_post_response`.
pub mod Order
use phira_mp_plus.Common.{ℕ, ◌+◌, List, [], ◌∷◌, ◌++◌, Bool, true, false, if◌then◌else◌, leb}
use phira_mp_plus.Wire.Commands.Server.{ServerCommand}
use phira_mp_plus.Session.Gate.{
  Sent, Answer, accepted, refused, timed_out, is_accepted, plain_send, flushed_send,
}

-- `PostResponseKind`, with the order of its cases.
pub data PostResponseKind : Type 0 where
  change_host change_state persistent_room replay : PostResponseKind

abbrev pub rank : PostResponseKind → ℕ
rank change_host = 0
rank change_state = 1
rank persistent_room = 2
rank replay = 3

-- `PostResponseItem`, with the command of its target.
pub record PostResponseItem : Type 0 where
  pub kind : PostResponseKind
  pub command : ServerCommand

unfoldable pub is_critical : PostResponseItem → Bool
is_critical item = elim (item.kind) [
  | change_host ↦ true
  | change_state ↦ true
  | persistent_room ↦ false
  | replay ↦ false
]

-- `sort_by_key(|it| it.kind)`, which is stable.
unfoldable pub insert_by_kind : PostResponseItem → List PostResponseItem → List PostResponseItem
insert_by_kind item [] = item ∷ []
insert_by_kind item (x ∷ xs) =
    let later = x ∷ insert_by_kind item xs in
    if leb (rank (item.kind)) (rank (x.kind)) then item ∷ x ∷ xs else later

unfoldable pub sort_by_kind : List PostResponseItem → List PostResponseItem
sort_by_kind [] = []
sort_by_kind (item ∷ items) = insert_by_kind item (sort_by_kind items)

-- `deliver_via` with the limit on its time: what goes out, and whether the batch goes on. `current` says
-- whether the item's session is still the user's.
unfoldable pub deliver_via : Bool → Answer → PostResponseItem → List Sent × Bool
deliver_via current answer item =
    if current
    then (if is_critical item then (flushed_send answer (item.command), is_accepted answer) else (
      plain_send answer (item.command),
      elim answer [ accepted ↦ true | refused queued ↦ true | timed_out queued ↦ false ],
    ))
    else ([], true)

-- An item that fails ends the batch.
abbrev pub and_then : List Sent × Bool → List Sent × Bool → List Sent × Bool
and_then first later = if first.1 then (first.0 ++ later.0, later.1) else (first.0, false)

-- `run_post_response_batch`, from the `n`-th of the sorted items on.
unfoldable pub run_batch : (ℕ → Bool) → (ℕ → Answer) → ℕ → List PostResponseItem → List Sent × Bool
run_batch current answers n [] = ([], true)
run_batch current answers n (item ∷ items) =
    let later = run_batch current answers (n + 1) items in
    and_then (deliver_via (current n) (answers n) item) later

unfoldable pub run_post_response_batch :
    (ℕ → Bool) → (ℕ → Answer) → List PostResponseItem → List Sent × Bool
run_post_response_batch current answers items = run_batch current answers 0 (sort_by_kind items)
