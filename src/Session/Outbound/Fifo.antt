-- ===== src/Session/Outbound/Fifo.antt =====
-- phira-mp-plus-server/src/session.rs: the order of all that an open session writes.
use mathlib.Core.List.{map}
use phira_mp_plus.Common.{
  ◌≡◌, refl, List, [], ◌∷◌, ◌++◌, Bool, true, false, not, arith, append-nil, append_assoc, ap, ◌∙◌,
}
use phira_mp_plus.Common.Tests.{if-both}
use phira_mp_plus.Common.Sublists.{
  Sublist, Sublist-refl, Sublist-append, Sublist-trans, Sublist-append_right,
}
use phira_mp_plus.Wire.Commands.Server.{ServerCommand}
use phira_mp_plus.Session.Gate.{Sent, accepted, refused, timed_out, flushed_send}
use phira_mp_plus.Session.Gate.Order.{commands, flushed_send-sublist}
use phira_mp_plus.Session.PostResponse.{sort_by_kind, run_post_response_batch}
use phira_mp_plus.Session.PostResponse.Order.{item_commands, run_post_response_batch-sublist}
use phira_mp_plus.Session.Outbound.{
  OutboundItem, packet, critical, activation, post_response, Link, Source, from_packet,
  from_critical, from_post_response, Outgoing, Task, tag, write, close, handle, handle_packet,
  handle_critical, handle_post_response, run_outbound_task,
}

abbrev pub all_commands : List Outgoing → List ServerCommand
all_commands = map (λ (o : Outgoing). o.sent.cmd)

-- The frames that an item asks for; those of a batch come in the order of their kinds.
unfoldable pub frames_of : OutboundItem → List ServerCommand
frames_of (packet cmd room_seq) = cmd ∷ []
frames_of (critical cmd) = cmd ∷ []
frames_of activation = []
frames_of (post_response items) = item_commands (sort_by_kind items)

unfoldable pub requested : List (Link × OutboundItem) → List ServerCommand
requested [] = []
requested ((link, item) ∷ items) = frames_of item ++ requested items

unfoldable pub has_activation : List (Link × OutboundItem) → Bool
has_activation [] = false
has_activation ((link, item) ∷ items) =
    let rest = has_activation items in
    elim item [
      | packet cmd room_seq ↦ rest
      | critical cmd ↦ rest
      | activation ↦ true
      | post_response ps ↦ rest
    ]

-- An open session that has written some of `frames`.
record IsOpen (frames : List ServerCommand) (t : Task) : Type 0 where
  in_order : Sublist (all_commands (t.written)) frames
  is_active : t.active ≡ true

same-IsOpen :
    (frames more : List ServerCommand) (t t' : Task)
    → t'.written ≡ t.written
    → t'.active ≡ t.active
    → IsOpen frames t
    → IsOpen (frames ++ more) t'
same-IsOpen frames more t t' w a h = record {
  in_order = rw w (Sublist-trans (Sublist-append_right frames more) (h.in_order));
  is_active = a ∙ h.is_active;
}

all_commands-tag :
    (xs : List Outgoing) (source : Source) (sent : List Sent)
    → all_commands (xs ++ tag source sent) ≡ all_commands xs ++ commands sent
all_commands-tag [] source [] = refl
all_commands-tag [] source (s ∷ sent) = ap (λ cs. s.cmd ∷ cs) (all_commands-tag [] source sent)
all_commands-tag (x ∷ xs) source sent = ap (λ cs. x.sent.cmd ∷ cs) (all_commands-tag xs source sent)

write-IsOpen :
    (frames more : List ServerCommand) (source : Source) (sent : List Sent) (t : Task)
    → Sublist (commands sent) more
    → IsOpen frames t
    → IsOpen (frames ++ more) (write source sent t)
write-IsOpen frames more source sent t s h = record {
  in_order = rw (all_commands-tag (t.written) source sent) (Sublist-append (h.in_order) s);
  is_active = h.is_active;
}

is_open_not : {b : Bool} → b ≡ true → not b ≡ true → ⊥
is_open_not {b = true} e h = cc
is_open_not {b = false} e h = cc

-- What is returned or closed besides.
answered-IsOpen :
    {frames : List ServerCommand} {t t' : Task}
    → t'.written ≡ t.written
    → t'.active ≡ t.active
    → IsOpen frames t
    → IsOpen frames t'
answered-IsOpen w a h = record { in_order = rw w (h.in_order); is_active = a ∙ h.is_active }

handle-IsOpen :
    (frames : List ServerCommand) (link : Link) (item : OutboundItem) (t : Task)
    → has_activation ((link, item) ∷ []) ≡ false
    → IsOpen frames t
    → IsOpen (frames ++ frames_of item) (handle link item t)
unfolding handle frames_of handle_packet handle_critical handle_post_response has_activation
handle-IsOpen frames link (packet cmd room_seq) t n h =
    let P : Task → Type 0 = IsOpen (frames ++ cmd ∷ []) in
    let same = same-IsOpen frames (cmd ∷ []) t t refl refl h in
    if-both P {b = not t.active} (λ shut. absurd (is_open_not (h.is_active) shut))
      (λ _.
        if-both P {b = not link.ready} (λ _. same)
          (λ _.
            elim (link.answers 0)
              as (λ a. P (elim a [
                | accepted ↦ write from_packet (record { cmd = cmd; flushed = false } ∷ []) t
                | refused queued ↦ t
                | timed_out queued ↦ close link t
              ])) [
                | accepted ↦
                    write-IsOpen frames (cmd ∷ []) from_packet
                      (record { cmd = cmd; flushed = false } ∷ []) t (Sublist-refl (cmd ∷ [])) h
                | refused queued ↦ same
                | timed_out queued ↦ same-IsOpen frames (cmd ∷ []) t _ refl refl h
              ]))
handle-IsOpen frames link (critical cmd) t n h =
    let P : Task → Type 0 = IsOpen (frames ++ cmd ∷ []) in
    let sent = flushed_send (link.answers 0) cmd in
    if-both P {b = not link.ready} (λ _. same-IsOpen frames (cmd ∷ []) t _ refl refl h)
      (λ _. answered-IsOpen refl refl (
        write-IsOpen frames (cmd ∷ []) from_critical sent t
          (flushed_send-sublist (link.answers 0) cmd) h))
handle-IsOpen frames link activation t n h = cc
handle-IsOpen frames link (post_response items) t n h =
    let batch = run_post_response_batch (link.current) (link.answers) items in
    let more = item_commands (sort_by_kind items) in
    let P : Task → Type 0 = IsOpen (frames ++ more) in
    let told =
      write-IsOpen frames more from_post_response batch.0 t
        (run_post_response_batch-sublist (link.current) (link.answers) items) h in
    if-both P {b = not link.ready} (λ _. same-IsOpen frames more t t refl refl h)
      (λ _. if-both P {b = batch.1} (λ _. told) (λ _. answered-IsOpen refl refl told))

pub has_activation-cons :
    (link : Link) (item : OutboundItem) (items : List (Link × OutboundItem))
    → has_activation ((link, item) ∷ items) ≡ false
    → (has_activation ((link, item) ∷ []) ≡ false) × (has_activation items ≡ false)
unfolding has_activation
has_activation-cons link item items n = ground arith

run_outbound_task-IsOpen :
    (items : List (Link × OutboundItem)) (frames : List ServerCommand) (t : Task)
    → has_activation items ≡ false
    → IsOpen frames t
    → IsOpen (frames ++ requested items) (run_outbound_task items t)
unfolding run_outbound_task requested
run_outbound_task-IsOpen [] frames t n h = rw append-nil h
run_outbound_task-IsOpen ((link, item) ∷ items) frames t n h =
    let parts = has_activation-cons link item items n in
    rw (← append_assoc frames (frames_of item) (requested items)) (
      run_outbound_task-IsOpen items (frames ++ frames_of item) (handle link item t) parts.1
        (handle-IsOpen frames link item t parts.0 h))

-- Once the gate is open, and until it is opened again, a session writes nothing but the packets, critical
-- responses and corrections that are queued, in the order in which they are queued, whatever sends fail:
-- none overtakes another, and the corrections of one batch go by their kinds.
pub run_outbound_task-requested :
    (items : List (Link × OutboundItem)) (t : Task)
    → t.active ≡ true
    → has_activation items ≡ false
    → Sublist
        (all_commands ((run_outbound_task items t).written))
        (all_commands (t.written) ++ requested items)
run_outbound_task-requested items t a n =
    (run_outbound_task-IsOpen items (all_commands (t.written)) t n
      (record { in_order = Sublist-refl (all_commands (t.written)); is_active = a })).in_order
