-- ===== src/Model/Grant/Stages.antt =====
-- The stages of a grant as a state machine, crates/data-model/src/oauth2/authorization_grant.rs.
use turnkey_triumph_326606_m.Prelude.{◌≡◌, ◌↔◌, refl, subst, List, [], ◌∷◌, Result, ok, arith}
use turnkey_triumph_326606_m.Prelude.ResultMonad.{◌>>=◌}
use turnkey_triumph_326606_m.Time.{Timestamp}
use turnkey_triumph_326606_m.Model.Session.{Session}
use turnkey_triumph_326606_m.Model.Grant.{
  AuthorizationGrantStage, pending, fulfilled, exchanged, cancelled, InvalidTransitionError,
  fulfill, exchange, cancel,
}

-- The operations, with their arguments.
pub data Event : Type 0 where
  fulfilling : Timestamp → Session → Event
  exchanging : Timestamp → Event
  cancelling : Timestamp → Event

-- The transitions that the stages allow.
pub data Step : AuthorizationGrantStage → Event → AuthorizationGrantStage → Type 0 where
  to_fulfilled : (t : Timestamp) (s : Session) → Step pending (fulfilling t s) (fulfilled s t)
  to_exchanged :
      (t f : Timestamp) (s : Session) → Step (fulfilled s f) (exchanging t) (exchanged s f t)
  to_cancelled : (t : Timestamp) → Step pending (cancelling t) (cancelled t)

unfoldable pub apply :
    AuthorizationGrantStage → Event → Result InvalidTransitionError AuthorizationGrantStage
unfolding fulfill exchange cancel
apply stage (fulfilling t s) = fulfill stage t s
apply stage (exchanging t) = exchange stage t
apply stage (cancelling t) = cancel stage t

-- The operations in turn, up to the first that is refused.
unfoldable pub run :
    AuthorizationGrantStage → List Event → Result InvalidTransitionError AuthorizationGrantStage
unfolding apply
run stage [] = ok stage
run stage (e ∷ es) = do next ← apply stage e; run next es

apply_ok :
    (stage : AuthorizationGrantStage) (e : Event) (next : AuthorizationGrantStage)
    → apply stage e ≡ ok next
    → Step stage e next
unfolding apply
apply_ok pending (fulfilling t s) next h =
    subst (Step pending (fulfilling t s)) (ground arith) (Step.to_fulfilled t s)
apply_ok pending (exchanging t) next h = cc
apply_ok pending (cancelling t) next h =
    subst (Step pending (cancelling t)) (ground arith) (Step.to_cancelled t)
apply_ok (fulfilled s f) (fulfilling t s') next h = cc
apply_ok (fulfilled s f) (exchanging t) next h =
    subst (Step (fulfilled s f) (exchanging t)) (ground arith) (Step.to_exchanged t f s)
apply_ok (fulfilled s f) (cancelling t) next h = cc
apply_ok (exchanged s f x) (fulfilling t s') next h = cc
apply_ok (exchanged s f x) (exchanging t) next h = cc
apply_ok (exchanged s f x) (cancelling t) next h = cc
apply_ok (cancelled c) (fulfilling t s') next h = cc
apply_ok (cancelled c) (exchanging t) next h = cc
apply_ok (cancelled c) (cancelling t) next h = cc

ok_apply :
    (stage : AuthorizationGrantStage) (e : Event) (next : AuthorizationGrantStage)
    → Step stage e next
    → apply stage e ≡ ok next
unfolding apply
ok_apply stage e next (Step.to_fulfilled t s) = refl
ok_apply stage e next (Step.to_exchanged t f s) = refl
ok_apply stage e next (Step.to_cancelled t) = refl

-- An operation succeeds exactly where the state machine has a transition, with its target.
pub apply_iff :
    (stage : AuthorizationGrantStage) (e : Event) (next : AuthorizationGrantStage)
    → (apply stage e ≡ ok next) ↔ Step stage e next
apply_iff stage e next = (apply_ok stage e next, ok_apply stage e next)

-- What a run from `pending` has done.
pub data History : List Event → AuthorizationGrantStage → Type 0 where
  still_pending : History [] pending
  was_fulfilled : (t : Timestamp) (s : Session) → History (fulfilling t s ∷ []) (fulfilled s t)
  was_exchanged :
      (t x : Timestamp) (s : Session)
      → History (fulfilling t s ∷ exchanging x ∷ []) (exchanged s t x)
  was_cancelled : (t : Timestamp) → History (cancelling t ∷ []) (cancelled t)

final_exchanged :
    (s : Session) (f x : Timestamp) (es : List Event) (last : AuthorizationGrantStage)
    → run (exchanged s f x) es ≡ ok last
    → (es ≡ []) × (last ≡ exchanged s f x)
unfolding run
final_exchanged s f x [] last h = (refl, ground arith)
final_exchanged s f x (fulfilling t s' ∷ es) last h = cc
final_exchanged s f x (exchanging t ∷ es) last h = cc
final_exchanged s f x (cancelling t ∷ es) last h = cc

final_cancelled :
    (c : Timestamp) (es : List Event) (last : AuthorizationGrantStage)
    → run (cancelled c) es ≡ ok last
    → (es ≡ []) × (last ≡ cancelled c)
unfolding run
final_cancelled c [] last h = (refl, ground arith)
final_cancelled c (fulfilling t s' ∷ es) last h = cc
final_cancelled c (exchanging t ∷ es) last h = cc
final_cancelled c (cancelling t ∷ es) last h = cc

-- Whatever operations a new grant goes through, its stage tells all of them: it was never touched, was
-- cancelled, was fulfilled, or was fulfilled and then exchanged once.
pub run-History :
    (es : List Event) (last : AuthorizationGrantStage) → run pending es ≡ ok last → History es last
unfolding run
run-History [] last h = subst (History []) (ground arith) History.still_pending
run-History (exchanging t ∷ es) last h = cc
run-History (cancelling t ∷ es) last h =
    let (none_left, same) = final_cancelled t es last h in
    rw (none_left, same) (History.was_cancelled t)
run-History (fulfilling t s ∷ []) last h =
    subst (History (fulfilling t s ∷ [])) (ground arith) (History.was_fulfilled t s)
run-History (fulfilling t s ∷ fulfilling u s' ∷ es) last h = cc
run-History (fulfilling t s ∷ cancelling u ∷ es) last h = cc
run-History (fulfilling t s ∷ exchanging x ∷ es) last h =
    let (none_left, same) = final_exchanged s t x es last h in
    rw (none_left, same) (History.was_exchanged t x s)
