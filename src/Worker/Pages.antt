-- ===== src/Worker/Pages.antt =====
-- extension/background/service-worker.js: the helpers of the handlers that answer pages.
use passwort_manager_yurr.Common.{ℕ, Option, none, some, Text}
use passwort_manager_yurr.Worker.{Sender, Payload, Runtime}
use passwort_manager_yurr.Worker.Senders
use passwort_manager_yurr.Common.{Bool}

module _ (r : Runtime) where
  -- `getMessagePageUrl(payload, sender)`
  unfoldable pub page_of : Payload → Sender → Text
  unfolding Senders.page_url
  page_of p s = Senders.page_url r.platform r.origin r.extension_origin p.page_url p.url s

  abbrev pub from_content_script : Sender → Bool
  from_content_script s = Senders.is_content_script r.platform r.origin r.extension_origin s

  -- The tab and the frame of a sender; a frame without a number is the first.
  abbrev pub frame_of : Sender → Option (ℕ × ℕ)
  frame_of s = elim s.tab [
    | none ↦ none
    | some tab ↦ elim tab.id [
      | none ↦ none
      | some id ↦ elim s.frame_id [ none ↦ some (id, 0) | some frame ↦ some (id, frame) ]
    ]
  ]
