-- ===== src/Lib.antt =====
-- The billing and identity core of the backend (src/app): wallets with their ledger, the access policy,
-- every path by which credits and subscriptions come in (StoreKit transactions, token purchases,
-- operator grants, the Adapty webhook and the CloudPayments callback), the devices, Apple accounts and
-- refresh tokens by which a user is known, the keys that users bring, the rate limits and the redaction
-- of logs; and of the chats their resumption and truncation, tool results, attachments and price, the
-- list of a user's chats, the sites that a chat builds with their preview links, and the workspaces
-- whose files a chat is shown. The wallet, the audit log and the database session are shared by all; the
-- handlers of the `site.*` tools write the audit log in the transaction of the turn that called them, and
-- the files of a workspace reuse the checks and the content blocks of attachments.
--
-- Files and code:
--   Base, Base/*      numbers, lists, integers and texts (a text is the list of its code points)
--   Errors            src/app/errors.py: the errors that the modelled services raise
--   Json              JSON values, the readers that the two webhook parsers share, and the record
--                     Runtime of what Python's standard library does with a text
--   Tables            src/app/models/tables.py: rows, and the database as one record
--   Session, Session/* src/app/db.py: committed and open database, session_scope, and rules for what
--                     an action keeps (Keeps: of the open transaction; Durable: of actions that commit
--                     as they go)
--   Audit             src/app/audit/service.py
--   Redaction/*       src/app/observability/redaction.py, on arbitrary JSON
--   Wallet, Wallet/*  src/app/wallet/service.py; Statements has its SQL statements, Account the
--                     abstract account that a wallet implements, Integrity the invariant IsSound
--                     (the balance is the credits less the debits and a BIGINT, a key is used once,
--                     amounts and ids are in range, a wallet has a user)
--   Policy/*          src/app/policy/engine.py and loader.py, _billing_plan of
--                     src/app/chat/orchestrator.py
--   Subscription/*    src/app/subscription/storekit.py and service.py
--   TokenPurchase     src/app/token_purchase/service.py
--   Admin             src/app/admin/service.py
--   Adapty/*          src/app/billing_adapty/parser.py and service.py
--   CloudPayments/*   src/app/billing_cloudpayments/parser.py, verify.py and service.py
--   Byok/*            src/app/byok: Keys (provider_detect.py, kms.py), Service (service.py)
--   Auth/*            src/app/auth: Apple (apple.py), Identity and Tokens (service.py)
--   Chat/*            src/app/chat: Repository and Sessions (repository.py), ToolResult and Billing
--                     (tool_result, _apply_tool_result, _finalize_assistant and _debit of
--                     orchestrator.py; what the turn does once nothing is awaited is an argument),
--                     Attachments (attachments.py)
--   Paging/*          keyset pagination as the repositories do it, and a client that follows the cursors
--   Chats/*           src/app/chats: Cursor (cursor.py), Listing (list_chats of repository.py)
--   Codec             base64, UTF-8, HMAC-SHA256 and int of a text
--   Website/*         src/app/website: Paths (paths.py), Files with its Statements (service.py),
--                     SignedUrl (signed_url.py), Tools (tools.py); Preview
--                     (src/app/api_gateway/routers/preview.py). Rows and Quota say what
--                     the statements on site_files do to a lookup and to the limits
--   Workspaces/*      src/app/workspaces: Repository (repository.py), Service (service.py and
--                     text_extract.py), Context (context_for_session of service.py)
--   RateLimit/*       src/app/api_gateway/rate_limit.py
--   Gateway/*         src/app/deps.py, src/app/api_gateway/auth.py and the routers of the endpoints that
--                     move money: Caller says who a request is from, Serve composes authentication,
--                     owner check, rate limit and service in one transaction
--   Config            src/app/config.py: the maps of products to credits, the freshness window
--   Tests/*           the services on small databases
--
-- A service method is an action on a session: it answers with a value or an error and leaves a session.
-- What a method wrote before it raised stays in the open transaction until session_scope, or the
-- CloudPayments service itself, rolls it back. A statement is atomic and carries the constraints it
-- relies on: UNIQUE (user_id, idempotency_key), the foreign keys to users and chat_sessions, the range
-- of BIGINT, CHECK (balance >= 0). A request runs alone: two requests at once are not modelled, and the
-- clock does not move within a request. Instants are microseconds from datetime.min; the clock is
-- taken to be more than a year before datetime.max.
--
-- Code that is not under src/app is a parameter: Runtime (json.loads, uuid.UUID, datetime.fromisoformat,
-- datetime.fromtimestamp, str of a container), Crypto and Jwt (PyJWT, cryptography, base64, SHA-256),
-- Cipher (AES-GCM, UTF-8), Codec (base64, UTF-8, HMAC-SHA256, int), pypdf, the collation of paths and
-- ILIKE of PostgreSQL, what os.urandom, secrets and uuid4 give, and the replies of broadapps and of
-- the model providers. The commands of Redis on a sorted set are written out as those of PostgreSQL
-- are. Settings are arguments of the services.
-- A UUID is a number. No function of the model runs on fuel that could end early: loops are recursion
-- on their list, and the decimal text of n has n + 1 rounds where each divides by ten. The client that
-- follows the cursors of a listing (Paging/Walk) asks for at most a number of pages; one more than there
-- are rows is enough, since every page but the last has a row.
--
-- Not modelled: metrics, log records, HTTP clients and the other routers; of the chat orchestration the
-- generation loop, the catalogue of tools and images; of the chats the views of their history, renaming
-- and deletion; of the lists the counts of a workspace's row and the preview of a chat's; profiles and
-- preferences.
pub mod Base
pub mod Errors
pub mod Json
pub mod Codec
pub mod Tables
pub mod Session
pub mod Audit
pub mod Redaction
pub mod Wallet
pub mod Policy
pub mod RateLimit
pub mod Byok
pub mod Auth
pub mod Subscription
pub mod TokenPurchase
pub mod Admin
pub mod Adapty
pub mod CloudPayments
pub mod Chat
pub mod Paging
pub mod Chats
pub mod Website
pub mod Workspaces
pub mod Gateway
pub mod Tests
pub mod Config
