-- ===== src/Session/Outbound/Order.antt =====
-- phira-mp-plus-server/src/session.rs: the order of the packets that a session writes, from its start.
use phira_mp_plus.Common.{
  ℕ, ◌≡◌, refl, List, [], ◌∷◌, ◌++◌, Bool, true, false, not, Option, arith, append-nil,
  append_assoc, ap, sym, ◌∙◌,
}
use phira_mp_plus.Common.Tests.{if-both}
use phira_mp_plus.Common.Sublists.{
  Sublist, done, Sublist-refl, Sublist-append, Sublist-trans, Sublist-append_right,
}
use phira_mp_plus.Wire.Commands.Server.{ServerCommand}
use phira_mp_plus.Session.Gate.{
  Gate, Sent, accepted, refused, timed_out, flushed_send, push_bounded, activate,
}
use phira_mp_plus.Session.PostResponse.{PostResponseItem, run_post_response_batch}
use phira_mp_plus.Session.Gate.Order.{
  commands, entry_commands, Keeps, push_bounded-Keeps, activate-sublist, activate-nil,
}
use phira_mp_plus.Session.Outbound.{
  OutboundItem, packet, critical, activation, post_response, Link, Source, from_packet,
  from_critical, from_post_response, Outgoing, Task, tag, write, close, handle, handle_packet,
  handle_critical, handle_activation, handle_post_response, run_outbound_task, start,
}

-- The packets among the written frames.
unfoldable pub packets_of : List Outgoing → List ServerCommand
packets_of [] = []
packets_of (o ∷ os) =
    let rest = packets_of os in
    elim (o.source) [
      | from_packet ↦ o.sent.cmd ∷ rest
      | from_critical ↦ rest
      | from_post_response ↦ rest
    ]

-- The packets among the items.
unfoldable pub queued : List (Link × OutboundItem) → List ServerCommand
queued [] = []
queued ((link, item) ∷ items) =
    let rest = queued items in elim item [ packet cmd room_seq ↦ cmd ∷ rest | _ ↦ rest ]

pub packets_of-append :
    (xs ys : List Outgoing) → packets_of (xs ++ ys) ≡ packets_of xs ++ packets_of ys
unfolding packets_of
packets_of-append [] ys = refl
packets_of-append (x ∷ xs) ys = ground (arith, packets_of-append xs ys)

packets_of-tag : (frames : List Sent) → packets_of (tag from_packet frames) ≡ commands frames
unfolding packets_of
packets_of-tag [] = refl
packets_of-tag (f ∷ frames) = ground (arith, packets_of-tag frames)

pub packets_of-critical : (frames : List Sent) → packets_of (tag from_critical frames) ≡ []
unfolding packets_of
packets_of-critical [] = refl
packets_of-critical (f ∷ frames) = packets_of-critical frames

pub packets_of-post_response :
    (frames : List Sent) → packets_of (tag from_post_response frames) ≡ []
unfolding packets_of
packets_of-post_response [] = refl
packets_of-post_response (f ∷ frames) = packets_of-post_response frames

-- The packets that are written and those that wait in the gate are some of `packets`, in their order, and
-- none waits in the gate of an open session.
pub record IsOrdered (packets : List ServerCommand) (t : Task) : Type 0 where
  pub in_order : Sublist (packets_of (t.written) ++ entry_commands (t.gate.pending.events)) packets
  pub drained : t.active ≡ true → t.gate.pending.events ≡ []

-- A frame of another source, or none, changes nothing.
other-IsOrdered :
    (packets : List ServerCommand) (t t' : Task)
    → packets_of (t'.written) ≡ packets_of (t.written)
    → t'.gate ≡ t.gate
    → t'.active ≡ t.active
    → IsOrdered packets t
    → IsOrdered packets t'
other-IsOrdered packets t t' w g a h = record {
  in_order = rw (w, g) (h.in_order);
  drained = λ e. rw g (h.drained (sym a ∙ e));
}

-- One packet more.
more-IsOrdered :
    (packets : List ServerCommand) (cmd : ServerCommand) (t : Task)
    → IsOrdered packets t
    → IsOrdered (packets ++ cmd ∷ []) t
more-IsOrdered packets cmd t h = record {
  in_order = Sublist-trans (Sublist-append_right packets (cmd ∷ [])) (h.in_order);
  drained = h.drained;
}

buffered-IsOrdered :
    (packets : List ServerCommand) (cmd : ServerCommand) (room_seq : Option ℕ) (t : Task)
    → t.active ≡ false
    → IsOrdered packets t
    → IsOrdered (packets ++ cmd ∷ []) (record t { gate = push_bounded cmd room_seq (t.gate) })
unfolding Keeps
buffered-IsOrdered packets cmd room_seq t a h =
    let w = packets_of (t.written) in
    let es = entry_commands (t.gate.pending.events) in
    let grown : Sublist (w ++ (es ++ cmd ∷ [])) (packets ++ cmd ∷ []) =
      rw (← append_assoc w es (cmd ∷ [])) (Sublist-append (h.in_order) (Sublist-refl (cmd ∷ []))) in
    record {
      in_order =
          Sublist-trans grown
            (Sublist-append (Sublist-refl w) (push_bounded-Keeps cmd room_seq (t.gate)));
      drained = λ e. cc;
    }

written-IsOrdered :
    (packets : List ServerCommand) (cmd : ServerCommand) (flushed : Bool) (t : Task)
    → t.active ≡ true
    → IsOrdered packets t
    → IsOrdered
        (packets ++ cmd ∷ [])
        (write from_packet (record { cmd = cmd; flushed = flushed } ∷ []) t)
written-IsOrdered packets cmd flushed t a h =
    let w = packets_of (t.written) in
    let frames : List Sent = record { cmd = cmd; flushed = flushed } ∷ [] in
    let before : Sublist w packets = rw (h.drained a, append-nil) at (h.in_order) in
    let after : packets_of (t.written ++ tag from_packet frames) ≡ w ++ cmd ∷ [] =
      packets_of-append (t.written) (tag from_packet frames)
      ∙ ap (λ x. w ++ x) (packets_of-tag frames) in
    record {
      in_order =
          rw (h.drained a, after, append-nil) (Sublist-append before (Sublist-refl (cmd ∷ [])));
      drained = h.drained;
    }

handle_packet-IsOrdered :
    (packets : List ServerCommand) (link : Link) (cmd : ServerCommand) (room_seq : Option ℕ)
    (t : Task)
    → IsOrdered packets t
    → IsOrdered (packets ++ cmd ∷ []) (handle_packet link cmd room_seq t)
unfolding handle_packet
handle_packet-IsOrdered packets link cmd room_seq t h =
    let more = more-IsOrdered packets cmd t h in
    let P : Task → Type 0 = IsOrdered (packets ++ cmd ∷ []) in
    if-both P {b = not t.active}
      (λ shut. buffered-IsOrdered packets cmd room_seq t (ground arith) h)
      (λ open_gate.
        if-both P {b = not link.ready} (λ _. more)
          (λ _.
            elim (link.answers 0)
              as (λ a. P (elim a [
                | accepted ↦ write from_packet (record { cmd = cmd; flushed = false } ∷ []) t
                | refused queued ↦ t
                | timed_out queued ↦ close link t
              ])) [
                | accepted ↦ written-IsOrdered packets cmd false t (ground arith) h
                | refused queued ↦ more
                | timed_out queued ↦ other-IsOrdered (packets ++ cmd ∷ []) t _ refl refl refl more
              ]))

untouched :
    (source : Source) (frames : List Sent) (t : Task)
    → packets_of (tag source frames) ≡ []
    → packets_of (t.written ++ tag source frames) ≡ packets_of (t.written)
untouched source frames t e =
    packets_of-append (t.written) (tag source frames)
    ∙ ap (λ x. packets_of (t.written) ++ x) e
    ∙ append-nil (packets_of (t.written))

handle_critical-IsOrdered :
    (packets : List ServerCommand) (link : Link) (cmd : ServerCommand) (t : Task)
    → IsOrdered packets t
    → IsOrdered packets (handle_critical link cmd t)
unfolding handle_critical
handle_critical-IsOrdered packets link cmd t h =
    let frames = flushed_send (link.answers 0) cmd in
    if-both (IsOrdered packets) {b = not link.ready}
      (λ _. other-IsOrdered packets t _ refl refl refl h)
      (λ _.
        other-IsOrdered packets t _ (untouched from_critical frames t (packets_of-critical frames))
          refl refl h)

handle_post_response-IsOrdered :
    (packets : List ServerCommand) (link : Link) (items : List PostResponseItem) (t : Task)
    → IsOrdered packets t
    → IsOrdered packets (handle_post_response link items t)
unfolding handle_post_response
handle_post_response-IsOrdered packets link items t h =
    let batch = run_post_response_batch (link.current) (link.answers) items in
    let told =
      other-IsOrdered packets t (write from_post_response batch.0 t)
        (untouched from_post_response batch.0 t (packets_of-post_response batch.0)) refl refl h in
    let P : Task → Type 0 = IsOrdered packets in
    if-both P {b = not link.ready} (λ _. h)
      (λ _.
        if-both P {b = batch.1} (λ _. told)
          (λ _. other-IsOrdered packets (write from_post_response batch.0 t) _ refl refl refl told))

handle_activation-IsOrdered :
    (packets : List ServerCommand) (link : Link) (t : Task)
    → IsOrdered packets t
    → IsOrdered packets (handle_activation link t)
unfolding handle_activation
handle_activation-IsOrdered packets link t h =
    let sink = link.answers in
    let r = activate sink (t.gate) in
    let w = packets_of (t.written) in
    let after : packets_of (t.written ++ tag from_packet r.1) ≡ w ++ commands r.1 =
      packets_of-append (t.written) (tag from_packet r.1) ∙ ap (λ x. w ++ x) (packets_of-tag r.1) in
    let drawn : Sublist (w ++ (commands r.1 ++ entry_commands (r.0.pending.events))) packets =
      Sublist-trans (h.in_order)
        (Sublist-append (Sublist-refl w) (activate-sublist sink (t.gate))) in
    if-both (IsOrdered packets) {b = not link.ready}
      (λ _. other-IsOrdered packets t _ refl refl refl h)
      (λ _. record {
        in_order =
            rw (after, append_assoc w (commands r.1) (entry_commands (r.0.pending.events))) drawn;
        drained = λ _. activate-nil sink (t.gate);
      })

queued-cons :
    (link : Link) (item : OutboundItem) (items : List (Link × OutboundItem))
    → queued ((link, item) ∷ items) ≡ queued ((link, item) ∷ []) ++ queued items
unfolding queued
queued-cons link (packet cmd room_seq) items = refl
queued-cons link (critical cmd) items = refl
queued-cons link activation items = refl
queued-cons link (post_response ps) items = refl

handle-IsOrdered :
    (packets : List ServerCommand) (link : Link) (item : OutboundItem) (t : Task)
    → IsOrdered packets t
    → IsOrdered (packets ++ queued ((link, item) ∷ [])) (handle link item t)
unfolding handle queued
handle-IsOrdered packets link (packet cmd room_seq) t h =
    handle_packet-IsOrdered packets link cmd room_seq t h
handle-IsOrdered packets link (critical cmd) t h =
    rw append-nil (handle_critical-IsOrdered packets link cmd t h)
handle-IsOrdered packets link activation t h =
    rw append-nil (handle_activation-IsOrdered packets link t h)
handle-IsOrdered packets link (post_response items) t h =
    rw append-nil (handle_post_response-IsOrdered packets link items t h)

run_outbound_task-IsOrdered :
    (items : List (Link × OutboundItem)) (packets : List ServerCommand) (t : Task)
    → IsOrdered packets t
    → IsOrdered (packets ++ queued items) (run_outbound_task items t)
unfolding run_outbound_task
run_outbound_task-IsOrdered [] packets t h = unfold queued in rw append-nil h
run_outbound_task-IsOrdered ((link, item) ∷ items) packets t h =
    rw
      (
        queued-cons link item items,
        ← append_assoc packets (queued ((link, item) ∷ [])) (queued items),
      )
      (run_outbound_task-IsOrdered items (packets ++ queued ((link, item) ∷ []))
        (handle link item t) (handle-IsOrdered packets link item t h))

-- Whatever the queue holds, however the sends end and however often the gate is opened, the packets that a
-- session writes are some of those that were queued, in the order in which they were queued, each at most
-- once.
pub run_outbound_task-queued :
    (items : List (Link × OutboundItem)) (gate : Gate)
    → gate.pending.events ≡ []
    → Sublist (packets_of ((run_outbound_task items (start gate)).written)) (queued items)
unfolding start packets_of
run_outbound_task-queued items gate e =
    let first : IsOrdered [] (start gate) = record { in_order = rw e done; drained = λ h. e } in
    let last = run_outbound_task-IsOrdered items [] (start gate) first in
    let t = run_outbound_task items (start gate) in
    Sublist-trans (last.in_order)
      (Sublist-append_right (packets_of (t.written)) (entry_commands (t.gate.pending.events)))
