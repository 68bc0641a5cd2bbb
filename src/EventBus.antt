-- ===== src/EventBus.antt =====
-- backend/src/event_bus.cpp and backend/include/multi_radio/event_bus.hpp: four bounded channels
-- between the receiver threads and the streaming services. Each channel has a mutex, a deque of
-- the last messages and the index of its first message; a reader keeps a cursor of its own.
pub mod Channel
pub mod Bus
pub mod Delivery
pub mod Stream
