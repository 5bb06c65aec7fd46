-- ===== src/Ws.antt =====
-- The WebSocket client: ws_client.go, ws_types.go, ws_options.go and the command types of
-- ws_messages_generated.go. `State` has the client's memory, `Send` the commands, `Incoming` the
-- message handlers, `Api` the calls of the user.
pub mod State
pub mod Send
pub mod Incoming
pub mod Api
pub mod Loop
pub mod Invariant
pub mod Delivery
pub mod Deaf
pub mod Recovery
pub mod Adoption
pub mod Backoff
pub mod Subscriptions
mod Tests
