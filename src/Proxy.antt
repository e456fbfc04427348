-- ===== src/Proxy.antt =====
-- p6/starter-code: the proxy server (proxyserver.c) and its priority queue (safequeue.c).
pub mod Queue
pub mod Delay
pub mod Server
pub mod Serve
pub mod Options
mod Tests
