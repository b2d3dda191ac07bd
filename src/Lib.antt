-- ===== src/Lib.antt =====
-- Verification library for frankai.online: the parts of the site and of its services that decide
-- what is stored, shown, accepted and let in, as executable definitions with theorems about them.
--
-- The parts and their files. Memory (lib/memory, app/api/memory, app/api/webhooks/hostinger-mail):
-- Memory/Ingest checks a payload (validateMemoryIngestPayload), Memory/Queue appends it to the
-- queue file and reads the file back (appendMemoryEvent, readMemoryEventsFromQueue), Memory/Words,
-- Memory/Terms and Memory/Metadata turn events into terms and citations, Memory/Index builds the
-- index (buildMemoryIndex), Memory/Query checks a search (validateMemorySearchPayload) and
-- Memory/Search answers it (searchMemoryIndex); Memory/Access holds the guards of
-- lib/memory/auth.ts, Memory/Endpoints the two handlers over the files, Memory/Webhook the mail
-- webhook, which forwards to the same queue. Platform (lib/platform): Platform/Config has the
-- types, Platform/Default the built-in configuration, Platform/Report and Platform/Parse the checks
-- that gather error messages, Platform/Validation validatePlatformConfig, Platform/Store reading,
-- drafting and publishing, and Platform/Admin the endpoint that does so for administrators
-- (app/api/admin/platform). Auth (lib/auth, app/api/auth): Auth/Accounts has users, sessions and
-- the audit trail, Auth/Login the sign-in handler, Auth/Refresh the rotation of refresh sessions
-- over the table and over the file, Auth/Config the settings (authConfig), Auth/Tokens access
-- tokens (lib/auth/jwt.ts), and Auth/Access the guards of the routes (lib/auth/http.ts),
-- Auth/Recovery and Auth/Invitations the links that reset a password and the invitations. Admin
-- (lib/auth/admin.ts, lib/auth/audit-registry.ts, app/api/admin/users/[id]): Admin/Registry has the
-- audit actions, Admin/Membership the tables, the count of administrators that can recover the site
-- and the end of a transaction, Admin/Users the transactions, Admin/Handlers the handlers over
-- them, Admin/Routes and Admin/Reach the requests one after the other and Admin/Audited what each
-- leaves in the audit trail. Contact (app/api/contact): the enquiry form. Services
-- (packages/contracts, services, agents/frank-core): Services/Contract has the schemas,
-- Services/Api relays a request to Services/Orchestrator, which runs the model, and Services/Chain
-- puts the two together; Services/Failures classifies what goes wrong; Services/Startup and
-- Services/Health build both servers and answer for their health. Scripts/AdminCreate is
-- scripts/admin-create.mjs, and Scripts/RebuildIndex is scripts/rebuild-memory-index.mjs, which has
-- copies of its own of the functions of lib/memory. Tests holds runs at concrete inputs.
--
-- How the code is read. A text is a list of UTF-16 code units, a JSON value a data type whose
-- objects are their own entries in order, and a finite number a magnitude over a power of two with
-- a sign; rounding of doubles does not occur in the code that is modelled. A handler is a function
-- from the request and the stored state to the new state and the reply; an exception that escapes a
-- handler is a value. A transaction ends with a value or an exception and the tables as its queries
-- have left them, which a rollback gives up. Files are their whole text; a parameter says how a
-- write ends, for the configuration also with a beginning of the text. Two requests do not
-- interleave. Times, random identifiers, hashes of tokens and the outcomes of CSRF checks and of
-- the account rate limit come in with the request. What the JavaScript runtime does beyond plain
-- code (case mapping, normalisation, collation, date parsing, the JSON text format, UTF-8) is the
-- record Common/Host.Runtime, and theorems name what they ask of it. Of the web framework of the
-- services, the limit of the body and the parsing of JSON are modelled, and of fetch its end by the
-- abort signal. The password check, the address hash, the signatures and the base64url texts of
-- tokens and the model's client are parameters too. An object's inherited members are modelled
-- where the code reads a plain object by a word of a text. All recursion is structural, so there is
-- no fuel.
--
-- Not modelled: rendering, the setting of cookies, SQL beyond the transactions above, the sending
-- of mail, multi-factor codes, the voice routes and the remaining account and administration
-- routes.
pub mod Common
pub mod Memory
pub mod Platform
pub mod Auth
pub mod Admin
pub mod Contact
pub mod Services
pub mod Scripts
pub mod Tests
