-- ===== src/Call.antt =====
-- call.go: joining, the tracks of a call and moving it to another SFU.
mod FirstJoin
mod Migration
mod Quality
mod Subscriptions
mod Tests
