-- ===== src/Lib.antt =====
-- Dvarpala decides who may use a company's VPN and what the VPN opens to them. A person signs in
-- at a portal, by a one-time code or an identity provider; the session is kept in Redis under the
-- browser's token and under the address of the tunnel; accounts, groups, resources, permissions,
-- allowed domains and the audit trail are tables of PostgreSQL. OpenVPN's hooks ask the program
-- whether the client at an address may have access, and get the routes to push.
--
-- How the program is modelled. An operation is an action over two servers, Redis and the database
-- (Platform.antt): it returns a result and the servers that it leaves, on an error too. A server
-- is a parameter of the model: it holds a value, and a command either gets through, with its
-- documented meaning on that value (Platform/Redis.antt, Platform/Database.antt), or changes
-- nothing and the operation fails as the code does. Theorems that need servers which take every
-- command say so by IsReliable; the others hold whatever the servers do. Also parameters are the
-- JSON codec of sessions, with the law that what is written is read back, the mailer, what package
-- net makes of an IPv6 address, what Google and Brevo answer, what a mail server accepts, what
-- deactivation's kill call returns, and what OpenVPN answers on its control channel. A fresh
-- random token or code is an argument, none where crypto/rand fails; so is the time, a number of
-- nanoseconds that stands still during one operation. TTL answers and EXPIRE takes whole seconds.
-- Texts are lists of bytes, and case folding and white space are those of ASCII.
--
-- The parts and their files, with the code that they are about:
-- - Models.antt: internal/database/models, and the session record of internal/auth/session.go.
-- - Auth/Session.antt: internal/auth/session.go (Create, Get, GetByClientIP, fetch, Revoke,
--   RevokeByClientIP, Disconnected, Reconnected). Its children are about what can be read until
--   when (Lifecycle) and about sessions that end early (Ending).
-- - Auth/Otp.antt: internal/auth/otp.go (Request, Verify, Exchange). Guesses is about a sequence
--   of verifications of one pending code, Flow about requests and what follows them.
-- - Auth/Mail.antt: internal/auth/mailer.go (SendCode, compose, send). Dialling is about
--   dialWithRetry, Secrecy about when credentials are sent, Choice about NewMailer and
--   internal/auth/brevo.go.
-- - Auth/Providers.antt: internal/auth/google.go and internal/auth/dev.go. Proved is about what an
--   identity from Google rests on.
-- - Auth/BreakGlass.antt: internal/auth/breakglass.go (Issue, session, Redeem), and the GETDEL
--   script of internal/auth/service.go.
-- - Auth/Login.antt: internal/auth/service.go (Begin, NewLoginAttempt, Complete, consumeState,
--   domainAllowed, Logout, RequestCode, VerifyCode and the rest) and internal/auth/provider.go;
--   its terms are in Auth/Login/Terms.antt. Safety and States are about whom it lets in;
--   Running, Completing and Trail about its steps on servers that answer.
-- - Services/Users.antt, Groups.antt, Resources.antt, Permissions.antt, Domains.antt, Audit.antt:
--   the files of internal/services. Statements of gorm are queries and updates of the tables; a
--   soft delete is a flag; the unique key of an insertion is what the table has not given before;
--   rows stand in the order of their identifiers.
-- - Net.antt: SplitCIDR of internal/services/resource.go, with the parts of package net that it
--   calls on IPv4 addresses, which are numbers below 2 ^ 32.
-- - Vpn/Access.antt: internal/api/vpnapi/vpn.go (Access, Disconnect, toRoutes, grantedResources,
--   sameIdentity). Checks and Decision are about what each reply rests on, Routes about the routes,
--   Outcome about the hook after other operations.
-- - Vpn/Management.antt: internal/vpn/management.go (Clients, Kill, KillClient, Reconnect,
--   command); what OpenVPN answers to a command after those sent before is a parameter.
-- - Vpn/Idle.antt: internal/vpn/idle.go (NewIdleSweeper, Sweep).
-- - Vpn/Authority.antt: internal/vpn/pki.go (IssueClient, IssueServer); signing is a parameter.
-- - Services/VpnConfigs.antt: internal/services/vpnconfig.go (Issue, Revoke, ListForUser, ListAll,
--   buildProfile, IssueServerCert). Its children are about the loop of revokeExisting (Revoking),
--   about how many configurations are active (Single), about what is in one (Contents) and about
--   what Issue and Revoke leave (Outcome).
-- - Auth/Session/Active.antt: Active of internal/auth/session.go. Pairing, Shortening, Reachable
--   and Absence are about the two keys of a session through the operations, in any order. Readers
--   is an abstract store, of what a token and an address give and until when; Running, Views and
--   Refinement relate the operations to it.
-- - Web.antt, Web/Portal.antt, Web/Codes.antt: internal/web/auth.go, otp.go, notfound.go and
--   router.go; a response is data. SignOut is about Logout, Escaping about the queries of
--   redirects, SignIn about signing in with a code, from the portal to the connect hook.
-- - Web/Admin.antt with Actions and Pages: internal/web/admin.go. Guards is about what stands in
--   front of a form.
-- - App.antt: NewDvarpala of internal/app/app.go; Guarded is about a start outside debug mode.
-- - Base.antt and its children: lists, sorting, Boolean tests and text. Platform/Rules.antt: what
--   holds after a step that succeeds; Platform/Invariants.antt: after a step however it ends;
--   Platform/Runs.antt: steps on servers that answer, as what they do to the values held.
--   Tests.antt and its children: runs on a small deployment.
--
-- The parts call each other as in the code: the login flow calls the account check, the allow-list
-- and the session store; the hooks call the session store, the account check and the permissions;
-- each operation records what it did through the audit service, whose failure is dropped.
--
-- Loops are over lists and are structural recursion; the loop that dials a mail server counts its
-- three attempts down. Only the printing of integers has fuel: 20 digits, which no 64-bit number
-- exceeds.
--
-- Not modelled: a command whose reply is lost after it took effect; two operations that
-- interleave; that Redis ends a key at a millisecond; that time passes between the two EXPIREs of
-- Reconnected; durations below zero, which act as zero where the code looks at them (the validity
-- of a certificate apart); the texts of errors, which are a parameter of the portal, and the
-- server's log; the tunnel restart that Complete starts in the background; the routing of
-- requests, the templates and the REST interface of internal/api/v1; the configuration; deadlines
-- on an open connection to a mail server; SMTPProbe; the files of the certificate authority; the
-- command line and the installers.
pub mod Base
pub mod Models
pub mod Platform
pub mod Auth
pub mod Net
pub mod Services
pub mod Vpn
pub mod Web
pub mod App
mod Tests
