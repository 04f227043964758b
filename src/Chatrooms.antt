-- ===== src/Chatrooms.antt =====
-- chatroomStorage.js: the key files of the chatrooms, one for each agent and conversation.
pub mod Names
pub mod Vault
pub mod Storage
