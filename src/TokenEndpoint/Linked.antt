-- ===== src/TokenEndpoint/Linked.antt =====
-- The links of refresh tokens across requests to the token endpoint,
-- crates/handlers/src/oauth2/token.rs.
use turnkey_triumph_326606_m.Model.Client.{Client}
use turnkey_triumph_326606_m.Model.Session.{Session, AccessToken, RefreshToken}
use turnkey_triumph_326606_m.TokenEndpoint.Rotated.{Rotated}
