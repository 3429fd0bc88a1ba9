-- ===== src/Web/Oidc.antt =====
-- cmd/rdpgw/web/oidc.go: sign-in with an OpenID provider. The provider, JSON, url.ParseRequestURI, random
-- texts and the saving of the session are parameters, as are the readings of the clock; a time is a number of
-- nanoseconds and 0 the zero time. The lock of the consumed states makes each use of them one step. Of the
-- session only what stands under OIDCSTATE is kept.
pub mod Transactions
pub mod Claims
pub mod Callback
pub mod Replay
pub mod SignIn
pub mod RoundTrip
