-- ===== src/Http.antt =====
-- ocean_http/http/http_conn.h and http_conn.cpp: one client connection of the web server.
pub mod State
pub mod Ends
pub mod Line
pub mod Parse
pub mod Request
pub mod Response
pub mod Process
mod Tests
mod RequestTests
