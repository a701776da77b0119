-- ===== src/Chat.antt =====
-- app/api/routes.py: the chat endpoint.
pub mod Think
pub mod Keys
