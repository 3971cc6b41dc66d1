-- ===== src/Lib.antt =====
-- Verification of the browser extension of the Yurrr password manager.
--
-- The extension keeps a session with a password server, caches what it reads from the vault, offers
-- credentials to the pages that may have them, and imports password exports of other browsers. Its
-- service worker decides which page may have which credential, and asks the session for the token and
-- the caches; the session asks the API client for the server's address and forgets everything when it
-- locks. The files here model those parts:
--
-- - Common, Common/Lists, Common/Strings: Boolean tests, lists, and text as lists of code points.
-- - Platform: what the browser does with a URL and with upper and lower case, as parameters with
--   their documented laws. Samples gives one browser that satisfies them.
-- - Csv, Csv/Report: `CSVParser` of extension/options/csv-parser.js. `scan` is the loop of
--   `parseRows`, with the skipped character as a flag; `parse_with_report` is `parseWithReport`.
-- - Site/Numbers, Site/Local, Site/Scope: `YurrrSiteScope` of extension/lib/site-scope.js.
--   `isLocalHost` calls itself at most once, so its two rounds of fuel are enough.
-- - Credential, Credential/Save: extension/background/service-worker.js, from `normalizeHostname` to
--   `isCredentialAllowedForPage`, `getCredentialForPageById`, and `getCredentialSaveDecision`. The
--   answers of the vault are a parameter, and a request may fail.
-- - Credential/Rank: `rankCredentialForFill` and `sortCredentialsForFill` of the same file, with the
--   places that its comparison falls back on.
-- - Credential/SafeUrl: `getSafeCredentialUrlForPage`.
-- - World: what the session, the API client, the caches and browser storage hold, as one record.
-- - Popup, Popup/Sanitize, Popup/Fetch, Popup/Read: `PopupCache` of
--   extension/background/popup-cache.js. Popup has freshness, pruning, writing and clearing; Fetch has
--   the request and what its answer or error does to the cache; Read has `load`, `expire`, `mutate`
--   and `read`. The server's answers (`ask`), the promises of other calls (`join_load`, `join_fetch`)
--   and whatever other handlers do at a wait (`env`) are parameters. `read` starts again while the
--   vault changes, and takes the number of its rounds; one round is all it needs if no change of
--   the vault is under way once the cache is loaded.
-- - Pending: the submitted user names and credentials that wait for a prompt, in
--   extension/background/service-worker.js, from `updatePendingRecords` to `clearPendingCredentials`.
-- - Session, Session/Api, Session/Tokens: extension/background/session.js and the part of
--   extension/background/api.js that keeps the server's address and the token. A handler is a
--   function from a World to a result and a World. `load_token` runs an arbitrary `env` of other
--   handlers at each of its waits; the other handlers run to their end. Session/Events has the
--   listeners of `setupIdleDetection` and those of the service worker, and runs sequences of events.
--   Session/Metadata is `getCredentialsForDomain` with its cache, and Session/Request is `request` of
--   the API client, with the network as a parameter and one retry where the method allows it.
-- - Worker and its modules: the handlers of `dispatchMessage` that answer pages, in
--   extension/background/service-worker.js. Senders has `assertMessageAllowed` and what it asks of a
--   sender, Emails `getEmailSuggestionsForPage`, Selected the record of the last selected credential,
--   Offers the handlers that list and fill credentials and addresses, Held those of what waits for a
--   prompt, Prompt `CHECK_PENDING_CREDENTIALS`, and Submit `FORM_SUBMITTED`. A handler is written in
--   stages, one function from each wait on. The Runtime record holds the browser, the server's
--   endpoints, the promises of other calls, and the other handlers. `FORM_SUBMITTED` first makes a
--   plan of what it is going to write, and then does that.
-- - Worker/Accounts has the handlers that log in and out and that read and write the vault, and
--   Worker/Errors `handleMessage`, `normalizeAndHandleError` and the listener of messages; Worker/Startup
--   has the start of the worker and what a change of the stored token does. A login and
--   the endpoints are Session/Endpoints, `getFavicon` is Session/Favicon.
-- - Fields and its modules: `YurrrHeuristics` of extension/content/heuristics.js. Fields has regular
--   expressions, so that the patterns can be written as they are; Inputs says which inputs take a user
--   name and with which score, Found picks one, Registration picks the input of an e-mail address,
--   Forms tells the forms apart, and Addresses the parts of an address. What the document says of an input is a record.
-- - Views: Strength is `calculateStrength` of extension/popup/components/password-generator.js, and
--   Favicons the queue of extension/popup/favicon-loader.js.
--
-- Time is a number of milliseconds. Text is a list of code points, so
-- that a lone half of a surrogate pair does not occur. Browser storage accepts what is
-- written to it.
--
-- Not modelled: the server in Rust, the network and its answers, and what the popup, the options page
-- and the content scripts (extension/content/detector.js, extension/content/overlay.js) do with the
-- document of a page.

pub mod Common
pub mod Platform
pub mod Samples
pub mod Csv
pub mod Site
pub mod Credential
pub mod World
pub mod Popup
pub mod Pending
pub mod Worker
pub mod Fields
pub mod Views
pub mod Session
