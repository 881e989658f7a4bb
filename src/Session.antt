-- ===== src/Session.antt =====
-- phira-mp-plus-server/src/session.rs, session_actor.rs and official_client_compat/post_response.rs: what a
-- session sends to its client, and in which order.
pub mod Gate
pub mod PostResponse
pub mod Outbound
pub mod Binding
pub mod Mailbox
