-- ===== src/Calls/Handlers.antt =====
-- Every handler and timer of call.service.ts changes the table by steps of the abstract life of a call.
mod Own
mod Initiate
mod Accept
mod Closing
mod Tabs
pub use time_flow_be.Calls.Handlers.Initiate.{initiate-Follows}
pub use time_flow_be.Calls.Handlers.Accept.{Answerable, accept_check_cases, accept-Follows}
pub use time_flow_be.Calls.Handlers.Closing.{
  reject-Follows, end-Follows, ring_fired-Follows, grace_fired-Follows,
}
pub use time_flow_be.Calls.Handlers.Tabs.{
  mark_connected-Follows, relay-Follows, resume-Follows, on_socket_disconnect-Follows,
}
