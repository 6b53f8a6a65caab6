-- ===== src/Tests/Clients.antt =====
-- Runs of the authentication of a client.
use turnkey_triumph_326606_m.Prelude.{[], ◌∷◌, ◌≡◌, ◌↔◌, some, ok, nothing, codes}
use turnkey_triumph_326606_m.Model.Client.{client_secret_basic, Client, resolve_redirect_uri}
use turnkey_triumph_326606_m.Model.Client.Redirect.{IsAllowed, resolve_redirect_uri_iff}
use turnkey_triumph_326606_m.ClientAuth.{secret_basic, verify}
use turnkey_triumph_326606_m.ClientAuth.Laws.{Proves, verify_iff}
use turnkey_triumph_326606_m.Tests.Data.{app, crypto}

abbrev secretive : Client
secretive = record app { encrypted_client_secret = some (codes "s") }

verify_iff_example :
    (verify crypto (secret_basic (codes "app") (codes "s")) client_secret_basic secretive
      ≡ ok nothing)
    ↔ Proves crypto secretive (secret_basic (codes "app") (codes "s")) client_secret_basic
verify_iff_example =
    verify_iff crypto secretive (secret_basic (codes "app") (codes "s")) client_secret_basic

resolve_redirect_uri_iff_example :
    (resolve_redirect_uri app (some (codes "a:b")) ≡ ok (codes "a:b"))
    ↔ IsAllowed (codes "a:b" ∷ []) (some (codes "a:b")) (codes "a:b")
resolve_redirect_uri_iff_example = resolve_redirect_uri_iff app (some (codes "a:b")) (codes "a:b")
