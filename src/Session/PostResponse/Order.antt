-- ===== src/Session/PostResponse/Order.antt =====
-- phira-mp-plus-server/src/official_client_compat/post_response.rs: the order of the corrections.
use mathlib.Core.List.{map}
use phira_mp_plus.Common.{ℕ, ◌+◌, ◌≤◌, ◌≡◌, refl, List, [], ◌∷◌, Bool, true, ◌==◌, arith, retain}
use phira_mp_plus.Common.Sublists.{Sublist, done, skip, Sublist-trans, Sublist-append_right}
use phira_mp_plus.Wire.Commands.Server.{ServerCommand}
use phira_mp_plus.Common.Tests.{if-both}
use phira_mp_plus.Session.Gate.{Sent, Answer, accepted, flushed_send, plain_send}
use phira_mp_plus.Session.Gate.Order.{
  commands, commands-sublist, flushed_send-sublist, plain_send-sublist,
}
use phira_mp_plus.Session.PostResponse.{
  PostResponseKind, rank, PostResponseItem, insert_by_kind, sort_by_kind, deliver_via, and_then,
  run_batch, run_post_response_batch, is_critical,
}

-- Each item comes no later in `PostResponseKind` than the next.
abbrev pub IsAscending : List PostResponseItem → Type 0
IsAscending [] = Unit {0}
IsAscending (x ∷ []) = Unit {0}
IsAscending (x ∷ y ∷ items) = (rank (x.kind) ≤ rank (y.kind)) × IsAscending (y ∷ items)

-- The items of one kind.
unfoldable pub of_kind : PostResponseKind → List PostResponseItem → List PostResponseItem
of_kind kind = retain (λ item. rank (item.kind) == rank kind)

insert_by_kind-IsAscending :
    (x : PostResponseItem) (items : List PostResponseItem)
    → IsAscending items
    → IsAscending (insert_by_kind x items)
unfolding insert_by_kind
insert_by_kind-IsAscending x [] h = tt
insert_by_kind-IsAscending x (y ∷ []) h = ground arith
insert_by_kind-IsAscending x (y ∷ z ∷ items) h =
    ground (arith, insert_by_kind-IsAscending x (z ∷ items))

of_kind-insert_by_kind :
    (kind : PostResponseKind) (x : PostResponseItem) (items : List PostResponseItem)
    → of_kind kind (insert_by_kind x items) ≡ of_kind kind (x ∷ items)
unfolding of_kind insert_by_kind
of_kind-insert_by_kind kind x [] = refl
of_kind-insert_by_kind kind x (y ∷ items) = ground (arith, of_kind-insert_by_kind kind x items)

sort_by_kind-IsAscending : (items : List PostResponseItem) → IsAscending (sort_by_kind items)
unfolding sort_by_kind
sort_by_kind-IsAscending [] = tt
sort_by_kind-IsAscending (x ∷ items) =
    insert_by_kind-IsAscending x (sort_by_kind items) (sort_by_kind-IsAscending items)

of_kind-sort_by_kind :
    (kind : PostResponseKind) (items : List PostResponseItem)
    → of_kind kind (sort_by_kind items) ≡ of_kind kind items
unfolding sort_by_kind of_kind
of_kind-sort_by_kind kind [] = refl
of_kind-sort_by_kind kind (x ∷ items) =
    ground
      (arith, of_kind-insert_by_kind kind x (sort_by_kind items), of_kind-sort_by_kind kind items)

abbrev pub item_commands : List PostResponseItem → List ServerCommand
item_commands = map (λ (i : PostResponseItem). i.command)

deliver_via_lem :
    (now : Bool) (answer : Answer) (item : PostResponseItem)
    → Sublist (commands (deliver_via now answer item).0) (item.command ∷ [])
unfolding deliver_via
deliver_via_lem now answer item =
    let P : List Sent × Bool → Type 0 =
      λ (p : List Sent × Bool). Sublist (commands p.0) (item.command ∷ []) in
    if-both P {b = now}
      (λ _.
        if-both P {b = is_critical item} (λ _. flushed_send-sublist answer (item.command))
          (λ _. plain_send-sublist answer (item.command)))
      (λ _. skip (item.command) done)

-- One item of a batch, with what follows it.
deliver_via-sublist :
    (now : Bool) (answer : Answer) (item : PostResponseItem) (later : List Sent × Bool)
    (cmds : List ServerCommand)
    → Sublist (commands later.0) cmds
    → Sublist (commands (and_then (deliver_via now answer item) later).0) (item.command ∷ cmds)
deliver_via-sublist now answer item later cmds s =
    let first = deliver_via now answer item in
    let sent = deliver_via_lem now answer item in
    if-both (λ (p : List Sent × Bool). Sublist (commands p.0) (item.command ∷ cmds)) {b = first.1}
      (λ _. commands-sublist first.0 later.0 (item.command) cmds sent s)
      (λ _. Sublist-trans (Sublist-append_right (item.command ∷ []) cmds) sent)

-- However the sends end, what goes out are some of the items, in their order.
pub run_batch-sublist :
    (current : ℕ → Bool) (answers : ℕ → Answer) (n : ℕ) (items : List PostResponseItem)
    → Sublist (commands (run_batch current answers n items).0) (item_commands items)
unfolding run_batch
run_batch-sublist current answers n [] = done
run_batch-sublist current answers n (item ∷ items) =
    deliver_via-sublist (current n) (answers n) item (run_batch current answers (n + 1) items)
      (item_commands items) (run_batch-sublist current answers (n + 1) items)

abbrev pub outgoing : PostResponseItem → Sent
outgoing item = record { cmd = item.command; flushed = is_critical item }

run_batch-all :
    (current : ℕ → Bool) (answers : ℕ → Answer) (n : ℕ) (items : List PostResponseItem)
    → ((k : ℕ) → current k ≡ true)
    → ((k : ℕ) → answers k ≡ accepted)
    → run_batch current answers n items ≡ (map outgoing items, true)
unfolding run_batch deliver_via flushed_send plain_send
run_batch-all current answers n [] c a = refl
run_batch-all current answers n (item ∷ items) c a =
    ground (arith, c n, a n, run_batch-all current answers (n + 1) items c a)

-- A batch for the current session whose sends are all taken in time goes out whole, in the order of the
-- kinds, and the items of each kind in the order in which they were given.
pub run_post_response_batch-order :
    (current : ℕ → Bool) (answers : ℕ → Answer) (items : List PostResponseItem)
    (kind : PostResponseKind)
    → ((k : ℕ) → current k ≡ true)
    → ((k : ℕ) → answers k ≡ accepted)
    → let sorted = sort_by_kind items in
      (run_post_response_batch current answers items ≡ (map outgoing sorted, true))
      × IsAscending sorted
      × (of_kind kind sorted ≡ of_kind kind items)
unfolding run_post_response_batch
run_post_response_batch-order current answers items kind c a = (
  run_batch-all current answers 0 (sort_by_kind items) c a,
  sort_by_kind-IsAscending items,
  of_kind-sort_by_kind kind items,
)

-- However the sends end, what goes out of a batch are some of its sorted items, in their order.
pub run_post_response_batch-sublist :
    (current : ℕ → Bool) (answers : ℕ → Answer) (items : List PostResponseItem)
    → Sublist
        (commands (run_post_response_batch current answers items).0)
        (item_commands (sort_by_kind items))
unfolding run_post_response_batch
run_post_response_batch-sublist current answers items =
    run_batch-sublist current answers 0 (sort_by_kind items)
