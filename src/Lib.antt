-- ===== src/Lib.antt =====
-- Phira-mp+: the protocol library (phira-mp/phira-mp-common, phira-mp/phira-mp-macros), the room actor
-- (phira-mp-plus-server/src/room_actor), the sessions (phira-mp-plus-server/src/session.rs), the bans
-- (phira-mp-plus-server/src/ban.rs), the write-ahead log (phira-mp-plus-server/src/persistence/wal) and the
-- guards of the sockets, with the properties that make them correct.
--
-- A client and the server exchange packets over a stream of bytes. Each packet carries one command in a
-- binary format. A session takes a player's commands to the actor of the player's room, which is the only
-- one that changes the room's state, and what the room sends goes back through the session's one outbound
-- task.
--
-- Wire: the protocol library.
--   Reader, Cursor     `BinaryReader` of bin.rs: the unread bytes, and the slice with its position.
--   Uleb               `uleb` of the reader and of the writer; the writer's loop is by recursion on the
--                      accessibility of the value.
--   Codec, Containers  `BinaryData` and its implementations. A codec is lawful on a predicate if its
--                      writer only appends and a written value with the predicate is read back.
--   Text               a `String` as its code points, `as_bytes` and `String::from_utf8_lossy`.
--   Derive             what the derive macro of phira-mp-macros/src/lib.rs generates, as functions of the
--                      list of variants.
--   RoomId             `Varchar<N>` and `RoomId` of command.rs.
--   Commands           the types of command.rs, each with its codec and the bounds of its fields.
--   Frame, Connection  the length prefix and the tasks of `Stream::new` in lib.rs. The receiver's loop has
--                      one round of fuel more than there are bytes, and each round takes a byte.
--
-- Room: the room actor.
--   State, Ids         `RoomActorState` with the lifecycle, what a command reads from outside (`Env`: the
--                      connections, the clock, the answers of the round store and of the persistence
--                      queue) and what it sends (`Effect`). A `HashSet` or `HashMap` is a list without
--                      repetition, and its iteration goes in the order of the list.
--   LiveData           `PlayerLiveData` of room.rs.
--   Rounds, Start      `save_round_history`, `check_all_ready`, `force_start_playing`,
--                      `force_end_playing` of handler.rs and the timeouts of mailbox.rs.
--   Answer, Play,      the arms of `execute_with_actor` in handler.rs: the guards come in the order of
--   Settings, Members, the code, and the refusal keeps what the code has changed by then. `RemoveUser`
--   Departure          and `KickUser`, in Departure with `on_user_leave` of room.rs, have the user's flag
--                      `monitor` as an argument.
--   Progress           `RegisterProgress`, and what `run_lifecycle_maintenance` of mailbox.rs does beside the
--                      timeouts.
--   Commands           the commands together, but for `RemoveUser` and `KickUser`, with the maintenance as
--                      four separate steps.
--   WellFormed,        the proofs.
--   Sequence, Opening,
--   Refusals, Stuck,
--   Capacity, History,
--   Leaving
--
-- Session: what a session keeps and sends.
--   Gate               `SessionOutboundGate` of phira-mp-plus-server/src/session.rs, which holds back what is
--                      sent before the client has its snapshot of the room.
--   PostResponse       `run_post_response_batch` of official_client_compat/post_response.rs.
--   Outbound           `run_outbound_task` of session.rs, over the items of its queue; a `Link` says what each
--                      item meets: the transport, the answers of its sends, the current sessions. A send
--                      whose flush fails says whether its frame is in the connection's queue all the same.
--   Binding            the binding of a user to a session, of session_lifecycle.rs, with
--                      `rollback_failed_auth` of session.rs.
--   Mailbox            the way of a command through the mailbox of session_actor.rs, with its deadlines.
--   Gate.Limits,       the proofs.
--   Gate.Bounds,
--   Gate.Order,
--   Gate.Activation,
--   Gate.Delivery,
--   PostResponse.Order,
--   Outbound.Order,
--   Outbound.Fifo,
--   Outbound.Barrier,
--   Binding.Reconnect,
--   Mailbox.Outcome
--
-- Access: who may connect and who may enter a room.
--   Store              `ExtensionDataStore` of phira-mp-plus-server/src/extensions.rs, where the bans are kept.
--   Reason             `normalize_reason` of phira-mp-plus-server/src/ban.rs.
--   Bans, Addresses,   `BanManager` of ban.rs: the bans of users, of addresses and of rooms, and the lists of
--   Rooms              those whom a room lets in. serde_json is a `Json` for each type that is written, and the
--                      theorems ask that what it writes it reads back; whether a call can save the store is an
--                      argument of the call.
--   Runs               the calls one after another, and the ideal registry.
--   Store.Plugins,     the proofs.
--   Reason.Laws,
--   Bans.Users,
--   Addresses.Listed,
--   Rooms.Listed,
--   Runs.Frames,
--   Runs.Agreement
--
-- Wal: the write-ahead log of phira-mp-plus-server/src/persistence/wal (mod.rs and marker.rs).
--   Format             the records, their frames and lines. JSON and SHA-256 are the fields of a `Codec`; the
--                      theorems ask that a frame is read back from its JSON text but for its event, whose
--                      floats may come back rounded, that the text holds no newline, and that no proper part
--                      of it from its start is a frame. Where a checksum has to hold, they ask that the first
--                      reading settles the event, as `compute_checksum` relies on: it has the same text for
--                      the checksum before and after, and a second reading changes nothing.
--   Ledger             what the log is for: the entries that are admitted and not struck out.
--   State, Append      `PersistenceWal` with its two files, `admit` and `ack`. What the file system answers is
--                      an argument of each call: which steps fail, and how much of a line is written.
--   Recovery, Replay,  `list_pending`, `replay` and `compact`.
--   Compact
--   Lines, Reading,    the proofs.
--   Durability, Calls,
--   Crash, Compaction,
--   Sequence, Damage
--
-- Net: the guards of the listening sockets.
--   SlidingWindow      the connection limiter of phira-mp-plus-server/src/rate_limiter.rs; SlidingWindow.History
--                      says what it promises without buckets.
--   Proxy              phira-mp-plus-server/src/server/proxy_protocol.rs: the parsers of the header. In
--                      Proxy.Stream a stream is the bytes that arrive in time, and the loop over peeks is by
--                      recursion on what the peeks see; in Proxy.Cidr are the trusted networks. The parsers of
--                      text of the standard library are arguments. Proxy.Laws, Proxy.Bounds and
--                      Proxy.Cidr.Masks have the proofs.
--
-- A command runs at one instant: the connections and the clock do not change while it runs. Not modelled are
-- `CloseRoom`, the telemetry with the pruning of its cache, `BindAndSnapshot`, what plugins, the event bus, the
-- log and the services of managed rooms are told, and the notices of a chat. Floats are their bit patterns,
-- and the one computation on them that matters, the length of a round's timeout, is a field of `Env`. Of the
-- log, the counters for metrics, the decision when to compact, the check of its paths and the permissions of
-- its files are left out; so is the token bucket, which counts in floats. Of the sessions, the handshake and
-- the authentication against Phira, the handlers of session_room.rs, the timers of users who are away, and
-- the sends that give up at a full queue are left out. Of the bans, their sorted list and the file of the
-- store are left out, and so is the cache of authentications. The persistence worker and its database, the
-- terminal, plugins and the servers' I/O are not modelled.
pub mod Common
pub mod Wire
pub mod Net
pub mod Room
pub mod Session
pub mod Access
pub mod Wal
pub mod Tests
