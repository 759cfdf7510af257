-- ===== src/ClientProgram.antt =====
-- proj_p2/src/client: the program of a client. Its main thread reads commands and sends requests, and a
-- second thread prints the notifications.
pub mod Parser
pub mod Api
pub mod Notifications
pub mod Connect
pub mod Main
