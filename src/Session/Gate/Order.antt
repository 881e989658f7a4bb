-- ===== src/Session/Gate/Order.antt =====
-- phira-mp-plus-server/src/session.rs: a gate keeps its packets in their order.
use mathlib.Core.List.{map}
use phira_mp_plus.Common.{
  ℕ, ◌+◌, ◌-◌, ◌≡◌, refl, List, [], ◌∷◌, ◌++◌, Bool, true, false, Option, arith, Bool-cases, inl,
  inr, append-nil, ap,
}
use phira_mp_plus.Common.Tests.{if-both}
use phira_mp_plus.Common.Sublists.{
  Sublist, done, keep, skip, Sublist-refl, Sublist-nil, Sublist-append, Sublist-trans,
  Sublist-append_right,
}
use phira_mp_plus.Wire.Commands.Server.{ServerCommand}
use phira_mp_plus.Session.Gate.{
  Gate, GateEntry, Sent, push_bounded, append_entry, drop_packet, make_room, entry_of, activate,
  drain, emptied, real_size, has_room, in_snapshot, over_limit, is_telemetry, is_covered, Answer,
  accepted, refused, timed_out, is_accepted, plain_send, flushed_send, send_entry,
}

-- The commands of what is sent.
abbrev pub commands : List Sent → List ServerCommand
commands = map (λ (s : Sent). s.cmd)

abbrev pub entry_commands : List GateEntry → List ServerCommand
entry_commands = map (λ (e : GateEntry). e.cmd)

make_room-sublist :
    (me mb size : ℕ) (es : List GateEntry) (bytes : ℕ)
    → Sublist (entry_commands (make_room me mb size es bytes).0) (entry_commands es)
unfolding make_room
make_room-sublist me mb size [] bytes = done
make_room-sublist me mb size (e ∷ es) bytes =
    elim (Bool-cases (has_room me mb size (e ∷ es) bytes)) [
      | inl fits ↦ rw fits (Sublist-refl (entry_commands (e ∷ es)))
      | inr full ↦
          rw full (skip (e.cmd) (make_room-sublist me mb size es (bytes - real_size (e.cmd))))
    ]

entry_commands-append :
    (xs ys : List GateEntry) → entry_commands (xs ++ ys) ≡ entry_commands xs ++ entry_commands ys
entry_commands-append [] ys = refl
entry_commands-append (x ∷ xs) ys = ap (λ zs. x.cmd ∷ zs) (entry_commands-append xs ys)

commands-append : (xs ys : List Sent) → commands (xs ++ ys) ≡ commands xs ++ commands ys
commands-append [] ys = refl
commands-append (x ∷ xs) ys = ap (λ zs. x.cmd ∷ zs) (commands-append xs ys)

-- The gate keeps its packets in their order, with the command at the end.
unfoldable pub Keeps : List GateEntry → ServerCommand → Gate → Type 0
Keeps es cmd gate = Sublist (entry_commands (gate.pending.events)) (entry_commands es ++ cmd ∷ [])

append_entry-Keeps :
    (e : GateEntry) (events es : List GateEntry) (bytes : ℕ) (gate : Gate)
    → Sublist (entry_commands events) (entry_commands es)
    → Keeps es (e.cmd) (append_entry e events bytes gate)
unfolding append_entry Keeps
append_entry-Keeps e events es bytes gate s =
    rw (entry_commands-append events (e ∷ [])) (Sublist-append s (Sublist-refl (e.cmd ∷ [])))

drop_packet-Keeps :
    (cmd : ServerCommand) (events es : List GateEntry) (bytes : ℕ) (overflow : Bool) (gate : Gate)
    → Sublist (entry_commands events) (entry_commands es)
    → Keeps es cmd (drop_packet events bytes overflow gate)
unfolding drop_packet Keeps
drop_packet-Keeps cmd events es bytes overflow gate s =
    Sublist-trans (Sublist-append_right (entry_commands es) (cmd ∷ [])) s

pub push_bounded-Keeps :
    (cmd : ServerCommand) (room_seq : Option ℕ) (gate : Gate)
    → Keeps (gate.pending.events) cmd (push_bounded cmd room_seq gate)
unfolding push_bounded entry_of
push_bounded-Keeps cmd room_seq gate =
    let es = gate.pending.events in
    let e = entry_of (gate.pending.next_seq) cmd room_seq in
    let room =
      make_room (gate.max_pending_events) (gate.max_pending_bytes) (real_size cmd) es
        (gate.pending.bytes) in
    let shorter =
      make_room-sublist (gate.max_pending_events) (gate.max_pending_bytes) (real_size cmd) es
        (gate.pending.bytes) in
    let same = Sublist-refl (entry_commands es) in
    if-both (Keeps es cmd) {b = over_limit gate (real_size cmd)}
      (λ _.
        if-both (Keeps es cmd) {b = is_telemetry (e.class)}
          (λ _. drop_packet-Keeps cmd es es (gate.pending.bytes) false gate same)
          (λ _.
            if-both (Keeps es cmd) {b = room.2}
              (λ _. append_entry-Keeps e (room.0) es (room.1) gate shorter)
              (λ _. drop_packet-Keeps cmd (room.0) es (room.1) true gate shorter)))
      (λ _. append_entry-Keeps e es es (gate.pending.bytes) gate same)

pub plain_send-sublist :
    (answer : Answer) (cmd : ServerCommand) → Sublist (commands (plain_send answer cmd)) (cmd ∷ [])
unfolding plain_send
plain_send-sublist accepted cmd = keep cmd done
plain_send-sublist (refused queued) cmd = skip cmd done
plain_send-sublist (timed_out queued) cmd = skip cmd done

pub flushed_send-sublist :
    (answer : Answer) (cmd : ServerCommand)
    → Sublist (commands (flushed_send answer cmd)) (cmd ∷ [])
unfolding flushed_send
flushed_send-sublist accepted cmd = keep cmd done
flushed_send-sublist (refused true) cmd = keep cmd done
flushed_send-sublist (refused false) cmd = skip cmd done
flushed_send-sublist (timed_out true) cmd = keep cmd done
flushed_send-sublist (timed_out false) cmd = skip cmd done

send_entry-sublist :
    (answer : Answer) (e : GateEntry) → Sublist (commands (send_entry answer e)) (e.cmd ∷ [])
unfolding send_entry
send_entry-sublist answer e =
    if-both (λ (sent : List Sent). Sublist (commands sent) (e.cmd ∷ [])) {b = is_covered (e.class)}
      (λ _. flushed_send-sublist answer (e.cmd)) (λ _. plain_send-sublist answer (e.cmd))

-- The frames of one send and those after it.
pub commands-sublist :
    (sent later : List Sent) (cmd : ServerCommand) (cmds : List ServerCommand)
    → Sublist (commands sent) (cmd ∷ [])
    → Sublist (commands later) cmds
    → Sublist (commands (sent ++ later)) (cmd ∷ cmds)
commands-sublist sent later cmd cmds s h = rw (commands-append sent later) (Sublist-append s h)

drain-sublist :
    (cutover : ℕ) (sink : ℕ → Answer) (n : ℕ) (es : List GateEntry)
    → Sublist (commands (drain cutover sink n es).0) (entry_commands es)
unfolding drain
drain-sublist cutover sink n [] = done
drain-sublist cutover sink n (e ∷ es) =
    let P : List Sent × Bool → Type 0 =
      λ (p : List Sent × Bool). Sublist (commands p.0) (entry_commands (e ∷ es)) in
    let sent = send_entry-sublist (sink n) e in
    if-both P {b = in_snapshot cutover e} (λ _. skip (e.cmd) (drain-sublist cutover sink n es))
      (λ _.
        if-both P {b = is_accepted (sink n)}
          (λ _.
            commands-sublist (send_entry (sink n) e) (drain cutover sink (n + 1) es).0 (e.cmd)
              (entry_commands es) sent (drain-sublist cutover sink (n + 1) es))
          (λ _. Sublist-trans (Sublist-append_right (e.cmd ∷ []) (entry_commands es)) sent))

pub activate-sublist :
    (sink : ℕ → Answer) (gate : Gate)
    → Sublist
        (commands (activate sink gate).1 ++ entry_commands ((activate sink gate).0.pending.events))
        (entry_commands (gate.pending.events))
unfolding activate emptied
activate-sublist sink gate = elim (Bool-cases (gate.overflowed)) [
  | inl overflow ↦ rw overflow (Sublist-nil (entry_commands (gate.pending.events)))
  | inr none_over ↦
      rw (none_over, append-nil)
        (drain-sublist (gate.pending.cutover_seq) sink 0 (gate.pending.events))
]

pub activate-nil : (sink : ℕ → Answer) (gate : Gate) → (activate sink gate).0.pending.events ≡ []
unfolding activate emptied
activate-nil sink gate = ground arith
