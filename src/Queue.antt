-- ===== src/Queue.antt =====
-- The queues behind the session and the driver: PicoDB/pico/ConcurrentVector.h,
-- PicoDB/pico/pico_concurrent_list.h and PicoDB/pico/pico_buffered_message.h.
pub mod Ends
pub mod Vector
pub mod ConcurrentList
pub mod Buffered
