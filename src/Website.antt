-- ===== src/Website.antt =====
-- src/app/website: the files of the sites that a chat builds.
pub mod Paths
pub mod Canonical
pub mod Files
pub mod Rows
pub mod SignedUrl
pub mod Tokens
pub mod Tools
pub mod Preview
pub mod Quota
pub mod Calls
pub mod Sites
pub mod ReadBack
pub mod Links
