-- ===== src/Worker/Errors.antt =====
-- extension/background/service-worker.js: the queue of messages that write what waits, and what an
-- error of a handler does.
use passwort_manager_yurr.Common.{
  ℕ, Bool, true, false, ◌&&◌, Option, none, some, ◌==◌, if◌then◌else◌,
}
use passwort_manager_yurr.World.{World}
use passwort_manager_yurr.Session.Api.{
  Code, auth_error, session_lost, Result, ok, thrown, M, forbidden, unknown_error,
}
use passwort_manager_yurr.Worker.{Runtime, Sender, end_session}
use passwort_manager_yurr.Worker.Senders
use passwort_manager_yurr.Worker.Senders.{Kind, needs_auth, is_pending_write, Refusal, refusal}

-- What is sent back.
pub data Reply (A : Type 0) : Type 0 where
  response : A → Reply A
  failed : Code → Reply A

-- `GET_PENDING_USERNAME`, `CHECK_PENDING_CREDENTIALS` and `FORM_SUBMITTED`, which wait for the writes
abbrev pub is_pending_read : Kind → Bool
is_pending_read Senders.get_pending_username = true
is_pending_read Senders.check_pending_credentials = true
is_pending_read Senders.form_submitted = true
is_pending_read _ = false

abbrev pub is_auth_error : Code → Bool
is_auth_error auth_error = true
is_auth_error _ = false

abbrev pub kind_needs_auth : Option Kind → Bool
kind_needs_auth none = false
kind_needs_auth (some kind) = needs_auth kind

-- `normalizeAndHandleError`; the message that goes with the code is left out.
unfoldable pub handle_error : {A : Type 0} → Option Kind → Code → M (Reply A)
unfolding end_session
handle_error kind c w =
    if kind_needs_auth kind && is_auth_error c
    then (ok (failed session_lost), end_session w)
    else (ok (failed c), w)

abbrev pub replied : {A : Type 0} → Option Kind → Result A × World → Result (Reply A) × World
replied kind (ok a, w) = (ok (response a), w)
replied kind (thrown c, w) = handle_error kind c w

-- The codes of what `assertMessageAllowed` throws; the error of a missing type has none.
abbrev pub code_of : Refusal → Code
code_of Senders.missing_type = unknown_error
code_of Senders.forbidden = forbidden

module _ {A : Type 0} (r : Runtime) (stopped : A) where
  abbrev pub unless_refused : Option Refusal → M A → World → Result A × World
  unless_refused none handler w = handler w
  unless_refused (some reason) handler w = (thrown (code_of reason), w)

  -- `dispatchMessage`, with the handler of the message
  unfoldable pub dispatch : (Option Kind → Sender → M A) → Option Kind → Sender → M A
  unfolding refusal
  dispatch handler kind s w =
      unless_refused (refusal r.platform r.origin r.extension_origin kind s) (handler kind s)
        (r.env 63 w)

  -- A write in its turn, which the session may have left behind.
  abbrev pub in_turn : ℕ → M A → World → Result A × World
  in_turn generation operation w =
      if generation == w.token_generation then operation w else (ok stopped, w)

  abbrev pub handle_kind :
      (Option Kind → Sender → M A) → Option Kind → Sender → World → Result A × World
  handle_kind handler none s w = dispatch handler none s w
  handle_kind handler (some kind) s w =
      if is_pending_write kind
      then in_turn w.token_generation (dispatch handler (some kind) s) (r.env 61 w)
      else if is_pending_read kind
      then dispatch handler (some kind) s (r.env 62 w)
      else dispatch handler (some kind) s w

  -- `handleMessage`
  unfoldable pub handle_message : (Option Kind → Sender → M A) → Option Kind → Sender → M A
  unfolding dispatch
  handle_message handler kind s w = handle_kind handler kind s (r.env 60 w)

  -- The listener of messages: an error of a handler becomes a reply.
  unfoldable pub on_message :
      (Option Kind → Sender → M A) → Option Kind → Sender → World → Result (Reply A) × World
  unfolding handle_message handle_error
  on_message handler kind s w = replied kind (handle_message handler kind s w)
