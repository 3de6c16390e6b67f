-- ===== src/Event.antt =====
-- services/event-service: events with their seats, and the messages that reserve and release them.
pub mod Types
pub mod Inventory
pub mod Cache
pub mod RedisCache
pub mod App
pub mod Events
mod Tests
pub mod RateLimiter
pub mod Dispatcher
pub mod Messaging
