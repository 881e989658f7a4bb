-- ===== src/Session/Outbound/Barrier.antt =====
-- phira-mp-plus-server/src/session.rs: what a session writes before its gate opens.
use phira_mp_plus.Common.{◌≡◌, refl, List, [], ◌∷◌, false, arith}
use phira_mp_plus.Session.Gate.{Gate, flushed_send}
use phira_mp_plus.Session.PostResponse.{run_post_response_batch}
use phira_mp_plus.Session.Outbound.{
  OutboundItem, packet, critical, activation, post_response, Link, Task, from_critical,
  from_post_response, tag, handle, handle_packet, handle_critical, handle_post_response,
  run_outbound_task, start,
}
use phira_mp_plus.Session.Outbound.Order.{
  packets_of, packets_of-append, packets_of-critical, packets_of-post_response,
}
use phira_mp_plus.Session.Outbound.Fifo.{has_activation, has_activation-cons}

-- No packet has been written, and none will be.
abbrev IsSilent : Task → Type 0
IsSilent t = (t.active ≡ false) × (packets_of (t.written) ≡ [])

handle-IsSilent :
    (link : Link) (item : OutboundItem) (t : Task)
    → has_activation ((link, item) ∷ []) ≡ false
    → IsSilent t
    → IsSilent (handle link item t)
unfolding handle handle_packet handle_critical handle_post_response has_activation
handle-IsSilent link (packet cmd room_seq) t n h = ground arith
handle-IsSilent link (critical cmd) t n h =
    let sent = flushed_send (link.answers 0) cmd in
    ground (arith, packets_of-append (t.written) (tag from_critical sent), packets_of-critical sent)
handle-IsSilent link activation t n h = cc
handle-IsSilent link (post_response items) t n h =
    let batch = run_post_response_batch (link.current) (link.answers) items in
    ground (
      arith,
      packets_of-append (t.written) (tag from_post_response batch.0),
      packets_of-post_response batch.0,
    )

run_outbound_task-IsSilent :
    (items : List (Link × OutboundItem)) (t : Task)
    → has_activation items ≡ false
    → IsSilent t
    → IsSilent (run_outbound_task items t)
unfolding run_outbound_task
run_outbound_task-IsSilent [] t n h = h
run_outbound_task-IsSilent ((link, item) ∷ items) t n h =
    let parts = has_activation-cons link item items n in
    run_outbound_task-IsSilent items (handle link item t) parts.1
      (handle-IsSilent link item t parts.0 h)

-- Until its gate is asked to open, a session writes no packet at all, only critical responses and
-- corrections.
pub run_outbound_task-silent :
    (items : List (Link × OutboundItem)) (gate : Gate)
    → has_activation items ≡ false
    → packets_of ((run_outbound_task items (start gate)).written) ≡ []
unfolding start packets_of
run_outbound_task-silent items gate n =
    (run_outbound_task-IsSilent items (start gate) n (refl, refl)).1
