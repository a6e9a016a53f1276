-- ===== src/Lib.antt =====
-- Time-Flow-BE: a model of the API server (src/ of the repository, TypeScript) and of what makes it correct.
--
-- The server is a set of services over a database (Prisma), a key-value store (Redis) and sockets. Requests
-- reach a service through routes and middleware, which are not modelled; the services keep the rules.
--
-- Shared: Prelude has the lists, tests and arithmetic that the other modules use. Prisma states what is
-- relied on of the database client: a table is seen as its rows, a `where` is a Boolean test, and
-- `updateMany`, `deleteMany` and `create` change the rows that match; Prisma/Keys is about primary keys.
-- Redis does the same for sorted sets. Both are parameters of every service, and `listed` in each is an
-- instance that shows that the laws can hold.
--
-- src/common/utils/totp.ts: Base32 (base32Encode, base32Decode with JavaScript's 32-bit shifts) and Totp
-- (totpStep, generateTotp, verifyTotp). HMAC-SHA1 is a parameter. A Buffer is a list of bytes.
--
-- src/cache/rate-limiter.ts: RateLimiter. The Lua script is one function of a bucket; consume and reset act on
-- the store of all buckets. A bucket that has expired is gone. Counts counts the requests of a window, Window is about
-- the limit and Retry about the time to wait. The store may fail, which callers allow for.
--
-- src/modules/calls: Calls. Types holds the rows, Machine the state (tables, the two maps of timers, what was
-- sent) and the monad of handlers that may throw, Finish the helpers of call.service.ts and Service its
-- handlers and timers. Lifecycle is the abstract specification: the steps that the table of calls may take.
-- Refines and Handlers show that every handler takes such steps, OneCall and Final are invariants of the
-- steps, and Reach puts handlers and timers in any order. Once is about finish, Race about accept with a
-- finish in the middle, Relay about signals. A handler runs without interruption except in Race.
-- Not modelled here: history, contacts and iceServers, which only read, and the wording of messages.
--
-- src/modules/auth/otp-delivery.ts: OtpDelivery (normalizeMobile, channelsFor, smsCodeMatches and which channels
-- take a code). What the providers answer is a parameter.
--
-- src/modules/auth/login-otp.service.ts: LoginOtp (start, verify, resend). Each write of the table is an operation
-- on the row that the request has read before, so Interleaved and Limits can let requests overlap; Verify
-- is about a request that runs alone. The keyed hash is a parameter.
--
-- src/modules/auth/signup-otp.service.ts: SignupOtp (start, verify, resend), in the same style but run alone;
-- Activation is about the account that `verify` activates.
--
-- src/modules/tasks: Tasks (create, update, remove with the checks of task.service.ts and the scope of
-- task.repository.ts). Of the signed-in user, Tasks knows the two permissions that the service asks for.
-- Types holds the data; Checks says what the checks let through, Sound is an invariant of the table, Rights is about who may do
-- what. Not modelled here: list and get, which only read, and the text of log entries and mails.
--
-- src/modules/password-resets: PasswordReset (request, verify, complete). Complete is about using a link, Request
-- about asking for one. The hashes and the mail provider are parameters. Not modelled here: latestForUser
-- and latestForUsers, which only read.
--
-- src/modules/auth/two-factor.service.ts: TwoFactor, on top of Totp and RateLimiter. AES, the hashes and the
-- answer of the passkey verifier are parameters. Types holds the data, Codes checks a code.
-- Shown says which proofs of a factor are accepted, Others what stays of other users, Replay is about using a code
-- twice, Removal about switching it off. Not modelled here: registering a passkey, status and the QR code.
--
-- src/modules/roles and src/modules/permissions: Roles (create, update, remove of role.service.ts with the guards of
-- rbac.service.ts). Keys is about lists of grants, Escalation about who may give and take permissions. Not modelled here: list, get and
-- users, which only read, and the cache of resolved permissions.
--
-- src/modules/projects: Projects (create, update and remove of project.service.ts with the scope of
-- project.repository.ts). Members are rows of a table of pairs; a `Set` is the list of its elements. The answer
-- of a handler is the row of the project, and Stats is how toProjects adds the numbers of its tasks. Members is about
-- who belongs to a project after an update, Sound is an invariant of the tables. Members are read in the order of
-- the table, not of `joinedAt`, which only the order of the mails shows. Not modelled here: list and stats.
--
-- src/modules/auth/auth.service.ts and token.service.ts: Sessions (issueSession, refresh, logout, revokeAllSessions,
-- revokeSession, revokeOtherSessions). Each write of `refresh` is an operation; Overlap has the steps of requests
-- that overlap, with the tokens that are claimed and not replaced yet. Live counts the tokens of a family that
-- work, Rotation is an invariant of the steps, Used and SingleUse are about a token that was exchanged, Reuse about
-- one that is presented again, GraceRace about two requests at once. SHA-256 and signatures are the libraries'.
--
-- src/modules/auth/token.service.ts: Tokens (signAccessToken, verifyAccessToken, signTwoFactorChallenge,
-- verifyTwoFactorChallenge). jsonwebtoken is a parameter, with what its documentation promises of a token that
-- was signed and of expiry; Library is an instance that keeps these laws. RoundTrip is about verifying what was
-- signed, Stable about verifying one token twice. Not modelled here: cookies and headers.
--
-- src/modules/auth/auth.service.ts: SignIn (login, verifyTwoFactorLogin, verifyPasskeyLogin, verifyLoginOtp,
-- completeTwoFactorSetupLogin), on top of Tokens, Sessions, TwoFactor and LoginOtp. The state of each is a part of the
-- state of a sign-in, and a row of `users` is one record in each of these parts, under the same id. Keys of Redis are kept with
-- the time at which they are dropped; the verifier of passkeys answers with a Boolean. Accounts finds
-- the account, SecondFactor has the steps that a challenge buys. Found is about the account that an
-- email or a number names, Challenge about exchanging a
-- challenge, Password about what a password alone opens. `lastLoginAt` and the log are one event. Not modelled
-- here: register and verifySignup, preferences, listSessions and the options of a passkey.
--
-- src/modules/invitations: Invitations (create, revoke, verify, accept of invitation.service.ts, and nameFromEmail).
-- The transaction of accepting is an operation, so that it may come long after its row was read. Spared and
-- Settled are about links that are no longer pending, SingleUse about accepting one, Status about the filter of the list.
-- Accounts has what invitations and users share: the rows of users, emailTaken, phoneTaken and the guard of
-- rbac.service.ts, whose cache is not modelled. Random tokens and ids are arguments.
--
-- src/modules/users: Users (create, update, remove, resetTwoFactor of user.service.ts). Guards says what its checks let
-- through, Escalation is about who may give a role to whom, SignOut about the sessions of an account that is
-- closed. resetTwoFactor calls twoFactorService.clear, which here is an event and the change of the row of the
-- user. Not modelled here: list, get and options, which only read.
--
-- Results has the results of handlers that the modules written last share.
--
-- Numbers are natural; times are milliseconds since the epoch. There is no fuel: every loop is a recursion
-- on a list or on a number of steps that the source bounds.
--
-- Not modelled: the other services (chat, emails, recordings and so on), the
-- queues and their workers, configuration, and the OpenAPI document.
pub mod Prelude
pub mod Base32
pub mod Totp
pub mod Redis
pub mod Prisma
pub mod RateLimiter
pub mod Calls
pub mod OtpDelivery
pub mod LoginOtp
pub mod Tasks
pub mod PasswordReset
pub mod TwoFactor
pub mod Roles
pub mod SignupOtp
pub mod SignIn
pub mod Tokens
pub mod Users
pub mod Accounts
pub mod Invitations
pub mod Sessions
pub mod Results
pub mod Projects
