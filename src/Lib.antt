-- ===== src/Lib.antt =====
-- Verification library of the testkit web console (web/): what a browser tab does with the session,
-- the tenant choice, the routes and the lists, as far as the console's own code decides it.
--
-- A page's code is an action on a browser (Browser.antt): local and session storage, the address,
-- and a log of what left the tab; it returns a value or throws. Storage may be blocked or full.
--   Prelude      library names, Boolean tests, lists over native numbers, JavaScript's optional texts
--   Choice       web/src/utils/tenantChoice.ts: the stored tenant choice and its validation
--   Request      web/src/request.ts: the interceptor, the error handler, and `call`, which puts both
--                around a server
--   Services     web/src/services/testkit/testkitService.ts: the requests that the models below send
--   Identity     the stored user, `readUser`, and web/src/utils/landing.ts
--   Access       web/src/access.ts: the flags that gate the routes
--   Session      web/src/utils/session.ts: endSession
--   Bootstrap    web/src/app.tsx: getInitialState (Recovery has its theorems), and in Gates `render` and
--                `onPageChange` (theorems in GateLaws)
--   Login        web/src/pages/User/Login/index.tsx: onFinish and the redirect of a signed-in visitor
--   Register     web/src/pages/User/Register/index.tsx: sendCode, its countdown, and onFinish
--   Switcher     web/src/components/TenantSwitcher.tsx: the switcher of the tenants
--   Scope        web/src/components/tenantScope.tsx: ownership of rows, rights, filters
--   ChunkGuard   web/src/utils/chunkGuard.ts: the reload of a stale tab
--   Cursor       web/src/components/CursorPager.tsx: paging by cursors; Buttons has the pager's
--                specification, Race two requests in flight
--   Routes       web/config/config.ts: the route table, its redirects and guards
--   Templates    web/src/utils/emailTemplates.ts: the built-in mails
--   Labels       web/src/components/{usertags,storagetags,messagetags}.tsx: labels, tags and options
--   Mail         web/src/pages/Message/SendEmail/index.tsx: Attach and Large the attachments, Markup
--                their block, Address and Recipients the tags, PlainText the bodies, Send handleSend
--   Sms          web/src/pages/Message/SendSMS/index.tsx: segments, parameters and onFinish
--   Submit       the `try` of the forms and actions that send one request, and what they show
--   Editor       web/src/components/RichEmailEditor/index.tsx: its two modes and what its host is told
--   Upload       web/src/pages/Files/MyFiles/UploadModal.tsx: customRequest
--   Credentials  web/src/pages/Tenant/Credentials.tsx: the tenant, and the actions on a key
--   Directory    web/src/pages/Reference/Directory/index.tsx: buildCountryJoin, and in Loads the
--                loading of the tabs
--   Admin        web/src/pages/Message/{Templates,Policies,Accounts,Signatures}.tsx: the rows of their tables
--                (Admin itself), and in a module for each the forms and the actions
--   Bindings     web/src/pages/Identity/index.tsx: binding and unbinding; Events the dialog over time
--   Sessions     web/src/pages/Session/index.tsx: the rows and the revoking
--   License      web/src/pages/License/{Keys,Console}.tsx: the keys, the made-up device and its calls
--   Records      web/src/pages/Message/{Emails,SMS}/index.tsx: the records of what was sent
--   Users        web/src/pages/User/List.tsx: the users, and what stops or starts one
--   Tokens       web/src/pages/Telemetry/Tokens.tsx: the ingest tokens of the chosen tenant
--   Files        web/src/pages/Files/MyFiles/index.tsx: the user's own files
--   TenantList   web/src/pages/Tenant/List.tsx: Page has its state and handlers, Events what the user
--                does and the server answers, in any order
--   Download     web/src/pages/Link/Download/index.tsx: the anonymous page of a file link
--   Tests        the theorems at concrete inputs
-- The parts meet in the browser: the pages store the token, the user and the choice, the interceptor
-- sends them, the bootstrap settles the choice, and the flags, views and gates read them.
--
-- Parameters. A server is a function of the log and the request; JSON is a codec, of which the login
-- theorem asks that it reads back what it wrote; the pager's fetch may answer differently at each call;
-- the clock's texts, a file's content, the decimal text of a number and the order of texts are
-- functions; the send pages take JSON.parse and the text of a payload, the other forms the text of what is nested
-- in a body and of a query; the license console takes its random draws, below 16; the editor takes the browser's
-- document. Each hypothesis about one has a concrete instance in Tests.
-- Fuel. The loop of the pager runs on fuel: a request gives one more than the page it wants, and each
-- round adds a cursor or ends the chain. So does the climb to the parents of a region group: any fuel
-- above the rank of every code is enough, where no chain of parents turns round.
-- Not modelled: React elements and their rendering, the other pages (tables and forms over generated
-- calls), interleavings of running actions but for the pager's requests and the events of the tenant
-- list, of the editor, of the directory and of the identities, the library behind `request`, and the Go backend.
pub mod Prelude
pub mod Browser
pub mod Choice
pub mod Request
pub mod Services
pub mod Files
pub mod Identity
pub mod Access
pub mod Admin
pub mod Session
pub mod Sessions
pub mod Bindings
pub mod Bootstrap
pub mod License
pub mod Login
pub mod Switcher
pub mod Records
pub mod Register
pub mod Scope
pub mod ChunkGuard
pub mod Cursor
pub mod Routes
pub mod Templates
pub mod Labels
pub mod Download
pub mod TenantList
pub mod Credentials
pub mod Directory
pub mod Editor
pub mod Tokens
pub mod Upload
pub mod Users
pub mod Submit
pub mod Mail
pub mod Sms
pub mod Tests
