-- ===== src/Session/Outbound.antt =====
-- phira-mp-plus-server/src/session.rs: `run_outbound_task`, the only task that writes to a session's client.
-- What a full queue does to the session of `try_send` is not here. A frame is written when the send queue
-- of its connection has taken it, also if a flush that waits for it fails.
pub mod Order
pub mod Fifo
pub mod Barrier
use mathlib.Core.List.{map}
use phira_mp_plus.Common.{
  ℕ, List, [], ◌∷◌, ◌++◌, Bool, true, false, not, ◌||◌, ◌&&◌, Option, none, some, if◌then◌else◌,
}
use phira_mp_plus.Wire.Commands.Server.{ServerCommand}
use phira_mp_plus.Session.Gate.{
  Gate, push_bounded, Sent, Answer, accepted, refused, timed_out, is_accepted, flushed_send,
  activate,
}
use phira_mp_plus.Session.PostResponse.{PostResponseItem, run_post_response_batch}

-- `OutboundItem`; the delay of a batch, which only holds the task up, is left out.
pub data OutboundItem : Type 0 where
  packet : ServerCommand → Option ℕ → OutboundItem
  critical : ServerCommand → OutboundItem
  activation : OutboundItem
  post_response : List PostResponseItem → OutboundItem

-- What the task meets while it handles one item: whether it has its sender, whether the session is still
-- there, how its sends end, and whether the session is its user's current one.
pub record Link : Type 0 where
  pub ready : Bool
  pub alive : Bool
  pub answers : ℕ → Answer
  pub current : ℕ → Bool

-- The item that a frame comes from.
pub data Source : Type 0 where
  from_packet from_critical from_post_response : Source

pub record Outgoing : Type 0 where
  pub source : Source
  pub sent : Sent

-- What is returned to the senders of critical responses and of the activation.
pub data Reply : Type 0 where
  flush_result activation_result : Bool → Reply

-- The task's variables, with what it has written and returned, and whether it has closed the session.
pub record Task : Type 0 where
  pub active : Bool
  pub gate : Gate
  pub written : List Outgoing
  pub replies : List Reply
  pub closed : Bool

abbrev pub tag : Source → List Sent → List Outgoing
tag source = map (λ (s : Sent). record { source = source; sent = s })

abbrev pub write : Source → List Sent → Task → Task
write source frames t = record t { written = t.written ++ tag source frames }

abbrev pub answer : Reply → Task → Task
answer r t = record t { replies = t.replies ++ r ∷ [] }

-- The session is closed, if it is still there.
abbrev pub close : Link → Task → Task
close link t = record t { closed = t.closed || link.alive }

-- `OutboundItem::Packet`
unfoldable pub handle_packet : Link → ServerCommand → Option ℕ → Task → Task
handle_packet link cmd room_seq t =
    if not t.active
    then record t { gate = push_bounded cmd room_seq (t.gate) }
    else if not link.ready
    then t
    else elim (link.answers 0) [
      | accepted ↦ write from_packet (record { cmd = cmd; flushed = false } ∷ []) t
      | refused queued ↦ t
      | timed_out queued ↦ close link t
    ]

-- `OutboundItem::Critical`
unfoldable pub handle_critical : Link → ServerCommand → Task → Task
handle_critical link cmd t =
    if not link.ready
    then answer (flush_result false) t
    else answer (flush_result (is_accepted (link.answers 0)))
        (write from_critical (flushed_send (link.answers 0) cmd) t)

-- `OutboundItem::Activate`
unfoldable pub handle_activation : Link → Task → Task
handle_activation link t =
    let opened = activate (link.answers) (t.gate) in
    if not link.ready
    then answer (activation_result false) t
    else answer (activation_result opened.2)
        (write from_packet opened.1 (record t { active = opened.2; gate = opened.0 }))

-- `OutboundItem::PostResponse`
unfoldable pub handle_post_response : Link → List PostResponseItem → Task → Task
handle_post_response link items t =
    let batch = run_post_response_batch (link.current) (link.answers) items in
    let told = write from_post_response batch.0 t in
    if not link.ready then t else if batch.1 then told else close link told

unfoldable pub handle : Link → OutboundItem → Task → Task
handle link (packet cmd room_seq) t = handle_packet link cmd room_seq t
handle link (critical cmd) t = handle_critical link cmd t
handle link activation t = handle_activation link t
handle link (post_response items) t = handle_post_response link items t

-- `run_outbound_task`, over the items of the queue in their order.
unfoldable pub run_outbound_task : List (Link × OutboundItem) → Task → Task
run_outbound_task [] t = t
run_outbound_task ((link, item) ∷ items) t = run_outbound_task items (handle link item t)

-- The task as it starts.
unfoldable pub start : Gate → Task
start gate = record { active = false; gate = gate; written = []; replies = []; closed = false }
