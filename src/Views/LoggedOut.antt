-- ===== src/Views/LoggedOut.antt =====
-- What logging out leaves, crates/handlers/src/views/logout.rs.
use turnkey_triumph_326606_m.Prelude.{
  ◌≡◌, ◌≢◌, refl, sym, ap, ◌∙◌, none, some, ok, err, map_err, Text, arith,
}
use turnkey_triumph_326606_m.Prelude.ResultMonad.{>>=-eq-ok, map_err_ok}
use turnkey_triumph_326606_m.Time.{Timestamp}
use turnkey_triumph_326606_m.Model.User.{BrowserSession}
use turnkey_triumph_326606_m.Model.Session.{Session, AccessToken, RefreshToken}
use turnkey_triumph_326606_m.Cookies.{
  Jar, SessionInfo, session_info, mark_session_ended, update_session_info,
}
use turnkey_triumph_326606_m.Storage.Rows.{Db, database, row_not_found}
use turnkey_triumph_326606_m.Storage.User.{lookup_active_session, end_session}
use turnkey_triumph_326606_m.Storage.User.Ended.{end_session-tokens}
use turnkey_triumph_326606_m.Storage.AccessToken.{lookup_active_access_token}
use turnkey_triumph_326606_m.Storage.RefreshToken.{lookup_active_refresh_token}
use turnkey_triumph_326606_m.TokenEndpoint.Redeemed.{commit_ok}
use turnkey_triumph_326606_m.Views.{ViewEnv, ViewMoment, storage, signed_in}
use turnkey_triumph_326606_m.Views.Sessions.{end_maybe, post_logout_page}

ended_jar :
    (env : ViewEnv) (jar : Jar) (info : SessionInfo)
    → ((i : SessionInfo) → env.cookies.decode_session (env.cookies.encode_session i) ≡ some i)
    → (session_info env.cookies (update_session_info env.cookies jar (mark_session_ended info))).0
      ≡ record { current = none }
unfolding session_info update_session_info mark_session_ended
ended_jar env jar info decodes = rw (decodes (record { current = none })) refl

end_maybe_ok :
    (env : ViewEnv) (moment : ViewMoment) (db : Db) (info : SessionInfo) (b : BrowserSession)
    (jar jar' : Jar) (db' : Db)
    → end_maybe env moment db info (some b) jar ≡ ok (jar', db')
    → (end_session db b ≡ ok db')
      × (jar' ≡ update_session_info env.cookies jar (mark_session_ended info))
unfolding end_maybe
end_maybe_ok env moment db info b jar jar' db' h =
    let (db1, e, k) = >>=-eq-ok (map_err storage (end_session db b)) _ h in
    let same : db1 ≡ db' = ground arith in (map_err_ok storage _ e ∙ ap ok same, ground arith)

-- Where a cookie's decoding undoes its encoding, logging out of the session that the cookie names ends
-- it: its id is not an active session's, the cookie that is answered names none, and no access token and
-- no refresh token of an OAuth 2.0 session that was granted in it is accepted at any time.
pub post_logout_page-ended :
    (env : ViewEnv) (moment : ViewMoment) (db : Db) (jar : Jar) (form : Text) (jar' : Jar)
    (db' : Db) (info : SessionInfo) (b : BrowserSession) (jar1 : Jar)
    → ((i : SessionInfo) → env.cookies.decode_session (env.cookies.encode_session i) ≡ some i)
    → signed_in env moment db jar form ≡ ok (info, some b, jar1)
    → post_logout_page env moment db jar form ≡ (ok jar', db')
    → (lookup_active_session db' b.id ≡ err (database row_not_found))
      × ((session_info env.cookies jar').0 ≡ record { current = none })
      × ((t : Timestamp) (u : Text) (a : AccessToken) (s : Session)
          → lookup_active_access_token db' t u ≡ ok (a, s)
          → s.browser_session.id ≢ b.id)
      × ((u : Text) (r : RefreshToken) (s : Session)
          → lookup_active_refresh_token db' u ≡ ok (r, s)
          → s.browser_session.id ≢ b.id)
unfolding post_logout_page
post_logout_page-ended env moment db jar form jar' db' info b jar1 decodes signed h =
    let ((info', maybe, jar2), e1, h1) =
      >>=-eq-ok (signed_in env moment db jar form) _ (commit_ok db _ jar' db' h) in
    let both = sym e1 ∙ signed in
    let same : (info' ≡ info) × (maybe ≡ some b) × (jar2 ≡ jar1) =
      (ground arith, ground arith, ground arith) in
    let step : end_maybe env moment db info (some b) jar1 ≡ ok (jar', db') =
      ap (λ m. end_maybe env moment db info m jar1) (sym same.1)
      ∙ ap (λ j. end_maybe env moment db info maybe j) (sym same.2)
      ∙ ap (λ i. end_maybe env moment db i maybe jar2) (sym same.0)
      ∙ h1 in
    let (ended, ej) = end_maybe_ok env moment db info b jar1 jar' db' step in
    let (gone, tokens, refresh) = end_session-tokens db b db' ended in
    (
      gone,
      ap (λ j. (session_info env.cookies j).0) ej ∙ ended_jar env jar1 info decodes,
      tokens,
      refresh,
    )
