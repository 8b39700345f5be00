-- ===== src/Lib.antt =====
-- Aleyacloud Relay: agencies draft posts for the brands of a workspace, clients approve them by a
-- link, and Celery workers publish them to Facebook pages and Instagram accounts.
--
-- The model is the Python service below relay/. Each service is a Django transaction on shared
-- tables. Store.antt has the tables as one record `Db` of lists, newest row first, and the body of a
-- transaction as a function from `Db` to a value with a new `Db`, or to an exception; `atomic`
-- commits or rolls back. A database error marks the transaction, as Django's `needs_rollback` does,
-- and each later query of it raises. Rows are the records of Models.antt, one file for each
-- models.py; ids are numbers, times are seconds, and timestamps that no service reads are left
-- out. Texts whose characters are read are lists of code points.
--
-- The parts, and the files of the repository that they follow:
--   Approvals.antt            relay/approvals/services.py
--   Posts.antt                relay/api/services.py: request_fingerprint, create_post_draft, approve_post
--   Scheduling.antt           relay/api/services.py: schedule_publication
--   Media.antt, Media/Upload  relay/content/services.py
--   Storage.antt              relay/content/storage.py, relay/content/delivery.py
--   Delivery.antt             relay/publications/services.py
--   Delivery/Live             what relay/publications/services.py calls in production, from the files of
--                             Crypto.antt, Storage.antt, Discovery.antt and Meta.antt
--   Delivery/Dispatch         relay/publications/tasks.py
--   Meta.antt                 relay/social/publishing.py
--   Oauth.antt                relay/social/services.py
--   Discovery.antt            relay/social/meta.py, with urllib.parse.urlencode in Urls.antt
--   Crypto.antt               relay/social/crypto.py
--   Access.antt, Access/Credentials
--                             relay/api/authentication.py and permissions.py; get_tenant and get_brand
--                             of relay/api/views.py
--   Commands.antt             relay/social/management/commands/revoke_promoted_meta_connections.py
--   Commands/Connections      relay/social/management/commands/list_brand_connections.py
--   Commands/Issue            relay/api/management/commands/issue_draft_ingest_token.py
--   Commands/Provision        relay/tenancy/management/commands/provision_content_workspace.py
--   Views.antt and the files below it
--                             relay/api/views.py, a file for each group of handlers, and
--                             relay/api/serializers.py in Views/Data
--   System.antt               the operations of all services as steps from one database to the next
-- A definition has the name of the function that it follows. Where a function is one transaction with
-- several parts, the parts have definitions of their own, and the function composes them. The files
-- below a part hold its proofs; Base.antt has the tests, table operations and lemmas that the parts
-- share, and Tests.antt the runs on concrete data.
--
-- A post goes from create_post_draft by request_approval and decide_approval, or by approve_post, to
-- schedule_publication; dispatch_due_publications queues what is due, and publish_due_publication
-- claims it in one transaction, calls the provider outside of any, and records the end in another.
-- Delivery/Workers.antt interleaves these two transactions of any number of workers with scheduling
-- and with crashes.
--
-- System.antt lets any of the operations follow one another; what it takes from outside (digests,
-- settings, the object store, Meta, the cipher, the token encoder, Django's users) is one record.
-- Delivery/Live puts the models of the clients in the place of the worker's arguments.
--
-- Arguments of the model are what the repository does not define: sha256, the clock, new ids and
-- tokens, the URLs that boto3 signs, Fernet, jwt.encode and jwt.decode, Django's users, sessions and
-- log-in, the user that REST framework leaves in a request, Python's tests of characters, and Meta's
-- server, which answers the publishing client knowing all requests before, and the OAuth client by its
-- URL and parameters. What Fernet and PyJWT document
-- are hypotheses, IsFernet and IsJwt. Where other transactions may commit during an operation, they
-- are an argument `others`. Timestamps that only a listing reads are functions of a row's id; the texts
-- of the exceptions of crypto.py and meta.py are a function of the exception. The one loop with a bound
-- of its own is the wait for an Instagram container, whose five rounds are the source's `range(5)`.
--
-- Not modelled: PanelCsrfView, which answers with a constant; what the commands print beside their
-- results; and whatever is configuration, migration or frontend.
pub mod Base
pub mod Models
pub mod Store
pub mod Approvals
pub mod Storage
pub mod Media
pub mod Posts
pub mod Scheduling
pub mod Delivery
pub mod Meta
pub mod Crypto
pub mod Urls
pub mod Oauth
pub mod Access
pub mod Commands
pub mod Discovery
pub mod System
pub mod Views
pub mod Tests
