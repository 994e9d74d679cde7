-- ===== src/Domain/Oauth.antt =====
-- domain/oauth.go and domain/oauth_grant.go: the rules of the authorization server.
pub mod Scopes
pub mod Tokens
pub mod Clients
