-- ===== src/Worker/Replies.antt =====
-- extension/background/service-worker.js: which messages reach a handler, and what its errors do.
use passwort_manager_yurr.Common.{
  ◌≡◌, ◌≢◌, ◌∙◌, if◌then◌else◌, sym, ◌⊎◌, refl, true, false, Option, some, ◌==◌, Bool-cases, inl,
  inr, arith, Option-cases, ap,
}
use passwort_manager_yurr.World.{World}
use passwort_manager_yurr.Session.Locking.{IsLocked}
use passwort_manager_yurr.Session.Api.{
  Code, session_lost, ok, thrown, M, auth_error, forbidden, config_error, session_changed,
  cache_changed, network_error, invalid_data, unknown_error, http_error,
}
use passwort_manager_yurr.Worker.{Runtime, Sender, end_session}
use passwort_manager_yurr.Worker.Senders
use passwort_manager_yurr.Worker.Senders.{
  Kind, needs_auth, is_content_safe, is_pending_write, refusal, refusal_iff, refusal-forbidden,
}
use passwort_manager_yurr.Worker.Errors.{
  failed, is_auth_error, handle_error, replied, code_of, unless_refused, dispatch, handle_kind,
  handle_message, on_message, is_pending_read,
}

end_session-IsLocked : (w : World) → IsLocked (end_session w)
unfolding end_session
end_session-IsLocked w = ground arith

module _ {A : Type 0} (r : Runtime) (stopped : A) where
  answered-forbidden :
      (kind : Kind) (v : World)
      → replied {A = A} (some kind) (thrown forbidden, v) ≡ (ok (failed forbidden), v)
  unfolding handle_error
  answered-forbidden kind v = ground arith

  not-auth_error : (c : Code) → is_auth_error c ≡ false → c ≢ auth_error
  not-auth_error c h e = cc (rw e at h)

  is-auth_error : (c : Code) → is_auth_error c ≡ true → c ≡ auth_error
  is-auth_error auth_error h = refl
  is-auth_error config_error h = cc
  is-auth_error session_changed h = cc
  is-auth_error cache_changed h = cc
  is-auth_error session_lost h = cc
  is-auth_error network_error h = cc
  is-auth_error invalid_data h = cc
  is-auth_error forbidden h = cc
  is-auth_error unknown_error h = cc
  is-auth_error (http_error status) h = cc

  answered-thrown :
      (kind : Kind) (c : Code) (v : World)
      → ((needs_auth kind ≡ true)
          × (c ≡ auth_error)
          × ((replied {A = A} (some kind) (thrown c, v)).0 ≡ ok (failed session_lost))
          × IsLocked (replied {A = A} (some kind) (thrown c, v)).1)
        ⊎ (((needs_auth kind ≡ false) ⊎ (c ≢ auth_error))
            × (replied {A = A} (some kind) (thrown c, v) ≡ (ok (failed c), v)))
  unfolding handle_error
  answered-thrown kind c v = elim (Bool-cases (needs_auth kind)) [
    | inr plain ↦ rw plain (inr (inl refl, refl))
    | inl needed ↦ elim (Bool-cases (is_auth_error c)) [
      | inl lost ↦
          rw (needed, lost) (inl (refl, is-auth_error c lost, refl, end_session-IsLocked v))
      | inr other ↦ rw (needed, other) (inr (inr (not-auth_error c other), refl))
    ]
  ]

  abbrev pub IsAccepted : Kind → Sender → Type 0
  IsAccepted kind s =
      (Senders.is_extension_page r.platform r.origin r.extension_origin s ≡ true)
      ⊎ ((Senders.has_tab s ≡ true)
          × (Senders.is_web_page r.platform r.origin r.extension_origin s.url ≡ true)
          × (is_content_safe kind ≡ true))

  -- A write comes to its turn in the session in which it was sent.
  abbrev pub IsInTurn : Kind → World → Type 0
  IsInTurn kind w =
      (is_pending_write kind ≡ false)
      ⊎ ((r.env 60 w).token_generation ≡ (r.env 61 (r.env 60 w)).token_generation)

  dispatch-refused :
      (handler : Option Kind → Sender → M A) (kind : Kind) (s : Sender) (w : World)
      {reason : Senders.Refusal}
      → refusal r.platform r.origin r.extension_origin (some kind) s ≡ some reason
      → dispatch r stopped handler (some kind) s w ≡ (thrown (code_of reason), r.env 63 w)
  unfolding dispatch
  dispatch-refused handler kind s w h =
      ap
        (λ (o : Option Senders.Refusal).
          unless_refused r stopped o (handler (some kind) s) (r.env 63 w))
        h

  refused-same :
      (h k : Option Kind → Sender → M A) (kind : Kind) (s : Sender) {reason : Senders.Refusal}
      → refusal r.platform r.origin r.extension_origin (some kind) s ≡ some reason
      → (w : World) → dispatch r stopped h (some kind) s w ≡ dispatch r stopped k (some kind) s w
  refused-same h k kind s e w = dispatch-refused h kind s w e ∙ sym (dispatch-refused k kind s w e)

  handle_kind-same :
      (h k : Option Kind → Sender → M A) (kind : Kind) (s : Sender) (w : World)
      → ((v : World) → dispatch r stopped h (some kind) s v ≡ dispatch r stopped k (some kind) s v)
      → handle_kind r stopped h (some kind) s w ≡ handle_kind r stopped k (some kind) s w
  handle_kind-same h k kind s w e = elim (Bool-cases (is_pending_write kind)) [
    | inl write ↦ elim (Bool-cases (w.token_generation == (r.env 61 w).token_generation)) [
      | inl same ↦ rw (write, same) (e (r.env 61 w))
      | inr moved ↦ rw (write, moved) refl
    ]
    | inr other ↦ elim (Bool-cases (is_pending_read kind)) [
      | inl read ↦ rw (other, read) (e (r.env 62 w))
      | inr plain ↦ rw (other, plain) (e w)
    ]
  ]

  late-same :
      (h k : Option Kind → Sender → M A) (kind : Kind) (s : Sender) (w : World)
      → is_pending_write kind ≡ true
      → (w.token_generation == (r.env 61 w).token_generation) ≡ false
      → handle_kind r stopped h (some kind) s w ≡ handle_kind r stopped k (some kind) s w
  late-same h k kind s w write moved = rw (write, moved) refl

  turn-IsInTurn :
      (kind : Kind) (w : World)
      → (is_pending_write kind ≡ false)
        ⊎ (((r.env 60 w).token_generation == (r.env 61 (r.env 60 w)).token_generation) ≡ true)
      → IsInTurn kind w
  turn-IsInTurn kind w (inl h) = inl h
  turn-IsInTurn kind w (inr h) = inr (ground arith)

  -- Which handler a message has makes a difference only if the message comes from a page of the
  -- extension, or is of a type that a page may send and comes from a tab with an http or https page,
  -- and, for a write of what waits for a prompt, if the session has not changed before its turn.
  pub on_message-IsAccepted :
      (h k : Option Kind → Sender → M A) (kind : Kind) (s : Sender) (w : World)
      → (on_message r stopped h (some kind) s w ≡ on_message r stopped k (some kind) s w)
        ⊎ (IsAccepted kind s × IsInTurn kind w)
  unfolding on_message handle_message
  on_message-IsAccepted h k kind s w =
      elim (Option-cases (refusal r.platform r.origin r.extension_origin (some kind) s)) [
        | inr (reason, refused) ↦ inl (
            ap (replied (some kind))
              (handle_kind-same h k kind s (r.env 60 w) (refused-same h k kind s refused)))
        | inl accepted ↦
            decided ((refusal_iff r.platform r.origin r.extension_origin kind s).0 accepted)
      ]
    where
      v : World
      v = r.env 60 w

      decided :
          IsAccepted kind s
          → (on_message r stopped h (some kind) s w ≡ on_message r stopped k (some kind) s w)
            ⊎ (IsAccepted kind s × IsInTurn kind w)
      decided a = elim (Bool-cases (is_pending_write kind)) [
        | inr other ↦ inr (a, inl other)
        | inl write ↦ elim (Bool-cases (v.token_generation == (r.env 61 v).token_generation)) [
          | inl same ↦ inr (a, turn-IsInTurn kind w (inr same))
          | inr moved ↦ inl (ap (replied (some kind)) (late-same h k kind s v write moved))
        ]
      ]

  -- What other handlers have done before a message reaches its handler.
  abbrev pub waited : Kind → World → World
  waited kind w =
      if is_pending_write kind
      then r.env 63 (r.env 61 (r.env 60 w))
      else if is_pending_read kind
      then r.env 63 (r.env 62 (r.env 60 w))
      else r.env 63 (r.env 60 w)

  -- A message in its turn is dispatched in the state that the waits have left.
  handle_message-in_turn :
      (handler : Option Kind → Sender → M A) (kind : Kind) (s : Sender) (w : World)
      → IsInTurn kind w
      → handle_message r stopped handler (some kind) s w
        ≡ unless_refused r stopped
            (refusal r.platform r.origin r.extension_origin (some kind) s)
            (handler (some kind) s)
            (waited kind w)
  unfolding handle_message dispatch
  handle_message-in_turn handler kind s w turn = elim (Bool-cases (is_pending_write kind)) [
    | inl write ↦
        let v = r.env 60 w in
        let same : (v.token_generation == (r.env 61 v).token_generation) ≡ true = elim turn [
          | inl other ↦ cc
          | inr same ↦ ground arith
        ] in
        rw (write, same) refl
    | inr other ↦ elim (Bool-cases (is_pending_read kind)) [
      | inl read ↦ rw (other, read) refl
      | inr plain ↦ rw (other, plain) refl
    ]
  ]

  -- A message that is not accepted is answered FORBIDDEN in its turn, whatever its handler is, and
  -- nothing but the waits changes the state, so that the session is not ended.
  pub on_message-refused :
      (handler : Option Kind → Sender → M A) (kind : Kind) (s : Sender) (w : World)
      → ¬ IsAccepted kind s
      → IsInTurn kind w
      → on_message r stopped handler (some kind) s w ≡ (ok (failed forbidden), waited kind w)
  unfolding on_message
  on_message-refused handler kind s w refused turn =
      ap (replied (some kind)) (handle_message-in_turn handler kind s w turn) ∙ closed
    where
      named : refusal r.platform r.origin r.extension_origin (some kind) s ≡ some Senders.forbidden
      named = refusal-forbidden r.platform r.origin r.extension_origin kind s refused

      closed :
          replied (some kind) (
            unless_refused r stopped
              (refusal r.platform r.origin r.extension_origin (some kind) s)
              (handler (some kind) s)
              (waited kind w))
          ≡ (ok (failed forbidden), waited kind w)
      closed = rw named (answered-forbidden kind (waited kind w))

  -- When the handler of an accepted message throws in its turn, the error is answered. If the message
  -- needs authentication and the code is AUTH_ERROR, the answer is SESSION_LOST and nothing secret is
  -- left; otherwise the answer has the code, and the state is what the handler has left.
  pub on_message-thrown :
      (handler : Option Kind → Sender → M A) (kind : Kind) (s : Sender) (w : World) (c : Code)
      (v : World)
      → IsAccepted kind s
      → IsInTurn kind w
      → handler (some kind) s (waited kind w) ≡ (thrown c, v)
      → ((needs_auth kind ≡ true)
          × (c ≡ auth_error)
          × ((on_message r stopped handler (some kind) s w).0 ≡ ok (failed session_lost))
          × IsLocked (on_message r stopped handler (some kind) s w).1)
        ⊎ (((needs_auth kind ≡ false) ⊎ (c ≢ auth_error))
            × (on_message r stopped handler (some kind) s w ≡ (ok (failed c), v)))
  unfolding on_message
  on_message-thrown handler kind s w c v accepted turn h =
      rw (ap (replied (some kind)) (handle_message-in_turn handler kind s w turn ∙ ran))
        (answered-thrown kind c v)
    where
      ran :
          unless_refused r stopped
            (refusal r.platform r.origin r.extension_origin (some kind) s)
            (handler (some kind) s)
            (waited kind w)
          ≡ (thrown c, v)
      ran = rw ((refusal_iff r.platform r.origin r.extension_origin kind s).1 accepted) h
