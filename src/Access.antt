-- ===== src/Access.antt =====
-- What guards the Gateway of apps/agent before a device is let in: the limit on authentication attempts
-- (RateLimiter) and the reconnect tickets (Tickets).
pub mod RateLimiter
pub mod Tickets
