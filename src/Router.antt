-- ===== src/Router.antt =====
-- components/airlink_router/airlink_router.c: the endpoints, what passes between them, and the
-- armed latch. The mutex makes each call one step; `esp_timer_get_time` and the endpoints' `send`
-- callbacks are the parameters `clock` and `send`.
pub mod State
pub mod Slots
pub mod Forward
pub mod Observe
pub mod Ingest
pub mod Follows
pub mod Delivery
pub mod Isolation
pub mod Sides
pub mod Safe
pub mod Bounded
pub mod Runs
pub mod Chunks
pub mod Registry
pub mod Tests
