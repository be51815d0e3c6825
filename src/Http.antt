-- ===== src/Http.antt =====
-- Http/: the parts of the HTTP server that keep state of their own: the queue of responses, the
-- routers, and the chain of handlers of a route.
pub mod Queue
pub mod Router
pub mod BasicRouter
pub mod Mount
pub mod ChainRouter
pub mod Chain
pub mod Session
pub mod Context
pub mod Server
mod Tests
