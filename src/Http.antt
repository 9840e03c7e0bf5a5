-- ===== src/Http.antt =====
-- http/: the request, the parser of requests, the response and the server that joins them.
pub mod Request
pub mod Context
pub mod Loop
pub mod Ends
pub mod Line
pub mod Render
pub mod Parse
pub mod Message
pub mod Reset
pub mod Response
pub mod Output
pub mod Server
pub mod Serve
pub mod Session
mod Examples
