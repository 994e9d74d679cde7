-- ===== src/Examples.antt =====
-- Runs of the code and the theorems at concrete inputs, one module for each part of the program.
mod Rules
mod Shops
mod Oauth
mod Tokens
mod Login
mod Reviews
mod Signup
mod Recalc
mod Moderation
