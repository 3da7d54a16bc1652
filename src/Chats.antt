-- ===== src/Chats.antt =====
-- src/app/chats: the list of a user's chats.
pub mod Cursor
pub mod Listing
