-- ===== src/Event.antt =====
-- event: the event store. An interceptor or an awaiter is a function of the program that uses the
-- store; here an interceptor is the number of its closure, whose calls are recorded.
mod Store
mod Delivery
mod Tests
