-- ===== src/Domain/Rules.antt =====
-- The rules on the texts and numbers that a user sends: chars.go, username.go, bio.go,
-- password.go, email.go, page.go, return_to.go, uuid.go.
pub mod Chars
pub mod Names
pub mod Password
pub mod Page
pub mod Email
