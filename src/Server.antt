-- ===== src/Server.antt =====
-- api/AdminServer.h and api/AdminServer.cpp: the HTTPS server. What the calls of the TLS library return, one
-- after the other, is an argument of the loops that call it.
pub mod Reading
pub mod Request
pub mod Parsed
pub mod Sending
pub mod Connection
pub mod Answered
pub mod Framing
pub mod Pending
pub mod Stopping
pub mod Listening
pub mod Written
