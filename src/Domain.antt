-- ===== src/Domain.antt =====
-- backend-go/internal/domain: the rules of the service, one child for each aggregate.
pub mod Errors
pub mod Rules
pub mod Url
pub mod Account
pub mod Shop
pub mod Review
pub mod Oauth
