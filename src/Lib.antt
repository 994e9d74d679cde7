-- ===== src/Lib.antt =====
-- A verification library for the Go server of hamburger_evaluation (backend-go), a site on which
-- users submit shops, moderators approve them, and users review burgers.
--
-- Parts of the program and the files that model them:
--   * Domain: the rules of backend-go/internal/domain. Domain/Rules has those on texts, passwords,
--     addresses and pages (chars.go, username.go, bio.go, password.go, email.go, page.go, uuid.go),
--     Domain/Url those on links (return_to.go, ValidateMapURL), Domain/Account user.go, Domain/Shop
--     shop.go, Domain/Review review.go, and Domain/Oauth oauth.go, oauth_grant.go and the
--     authentication of a token in usecase/oauth.go. A function keeps its name in snake_case; a
--     method takes its receiver as an argument.
--   * Recalc: the recalculation of statistics. Recalc/Backoff is NewRecalcFailure of
--     domain/burger_stats.go; Recalc/Queue the table of requests with its statements
--     (adapter/repository/sqlcgen); Recalc/System the writers and the workers of
--     usecase/stats_worker.go and usecase/shop_stats_worker.go as a step relation. A write requests
--     the subjects whose facts it changes, and may change a reviewer's ratings of other burgers
--     (ListReviewerRatings), for whose statistics no request is made: they follow at their next
--     recalculation. The state keeps these histories apart from the facts.
--   * TokenStore: the records of OAuth tokens, from the statements up to the storage that the OAuth
--     library calls (adapter/oauthserver/storage.go).
--   * Login: signing in with Google (usecase/google_login.go) on the tables of users, identities and
--     handoff codes, inside the unit of work of adapter/uow/uow.go. Login/Password is the sign-in
--     with a password and the reading of a login token (usecase/auth.go).
--   * Moderation: the requests that create, rename, approve, reject, close and reopen a shop
--     (usecase/shops.go), as interleavings of their readings and their writes.
--   * Transaction: code that runs on any tables, with something beside them that a rollback does not
--     restore: one statement, the sequence of two and UnitOfWork.Do, which is also withTx of
--     adapter/repository/tx.go. Reviews and Signup are written with it.
--   * Reviews: Create, Update and Delete of usecase/reviews.go, the statements that they run
--     (adapter/repository/review_repository.go, adapter/query/review_query.go, RequestRecalculation
--     of usecase/unit_of_work.go and usecase/shop_stats.go) and the storage of photos.
--     Reviews/Service/Written and Reviews/Service/Burgers describe the rows and the burger that a
--     request leaves, without the code. Reviews/Photos interleaves many of them.
--   * Signup: Request and Confirm of usecase/signup.go with the statements on the sign-ups that wait
--     for their confirmation (adapter/repository/signup_verification_repository.go). Signup/Sweep is
--     about the deletion of expired ones, Signup/Resend about a second mail.
--   * Base has the numbers, lists and texts that they share, Examples the theorems at concrete
--     inputs.
--
-- How the parts interact: Reviews writes facts and requests recalculations (the queues of Recalc) in
-- one transaction, which Recalc/System takes as one step; a sign-in or a sign-up creates users whose
-- profiles Domain/Account shows; a review looks at the shops of Domain/Shop and is checked by the
-- rules of Domain/Review; a sign-up and a sign-in are checked by Domain/Rules; the OAuth library
-- reads TokenStore and hands an access token to Domain/Oauth/Tokens.
--
-- Representation: a Go string is a sequence of Unicode code points, since the texts come from
-- encoding/json or the database, which hold valid UTF-8, or from a query string (return_to), which
-- Domain/Url checks byte by byte; `runes` and `bytes` are its two views. A
-- time is a number of nanoseconds since the zero time. An int that may be negative is an integer of
-- Base/Int; sums and products that could leave int32 or int64 are written with the wrap-around.
-- A pointer is an Option. An error is a value of Domain/Errors: wrapping with %w keeps what
-- errors.Is sees, so it is left out, as are the texts for the log.
--
-- Parameters stand for code outside the repository: net/url, net/mail, net/netip, encoding/json,
-- the table of printable characters, SHA-256, the issuer of login tokens, the introspection of the
-- OAuth library, the hashing of passwords, the database's lower() and random ids. The theorems hold
-- whatever they answer.
--
-- Refusals of the database: Login, Reviews and Signup take a list that says of each call, of the
-- database or of the storage of photos, whether it is refused, and most theorems hold for every such
-- list; a call or a commit that is refused changes nothing (a commit that takes place and whose
-- answer is lost is not modelled). Recalc/System has a step for every place
-- at which a transaction can fail. In TokenStore a refused statement changes nothing and is left out.
--
-- Concurrency: Recalc/System interleaves transactions at the points at which they take a lock, read
-- and commit. Reviews/Photos interleaves requests at the points between their readings, the storage
-- of the photo, the transaction and the deletion of the photo that is left over; a key is drawn that
-- was not drawn before. In TokenStore every operation is one statement, so that a sequence of
-- operations in the order of their commits is all that can happen. In Login and Signup the row lock
-- of a code or a token orders its uses, so that one use is a step of its own.
--
-- No loop needs fuel: all of them run over a list or a text.
--
-- Not modelled: HTTP handlers, MCP tools, configuration, the sending of mails, the decoding of
-- photos and the two storages behind their contract (input and output, or calls of libraries), the
-- queries for lists, the figures that a response shows with a burger or a shop, the changes of a
-- profile and the withdrawal of an account, the pages of the OAuth consent, and the web frontend.
mod Base
pub mod Domain
pub mod Recalc
pub mod TokenStore
pub mod Login
pub mod Moderation
pub mod Transaction
pub mod Signup
pub mod Reviews
mod Examples
