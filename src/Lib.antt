-- ===== src/Lib.antt =====
-- beebase-auth-service: accounts, logins in two factors, sessions and password resets.
--
-- The program is a Go service. internal/application/auth holds the operations (Service), which call
-- the repositories of internal/repository/postgres, the shared session store, other services and
-- the platform packages; internal/domain holds the entities with their small rules;
-- deletion_worker.go carries out the deletion of accounts that RequestDeletion has queued.
--
-- World.antt has the state that the operations work on: the tables of the database (Db), the state
-- of the session store, the calls that went out to other services and the clean-ups that were
-- started. An operation is an action `App S A`, a function from a state to a result and a state:
-- what has been written before an error stays written. The clock, the random source, uuid.New and
-- the failures of the database are functions of the number of the event (Env); no theorem restricts
-- them unless it says so, and a statement may fail at any event. Times are in nanoseconds, uuids are
-- numbers and texts are lists of code points; none of them is bounded, and counters do not wrap.
-- World/Ensures.antt has rules for what holds where an action ends well, World/Keeps.antt for what
-- holds whatever its outcome, World/Leads.antt for what it makes of one property of the database,
-- and World/Attains.antt for actions that are known to end well.
--
--   Errors.antt                errors of internal/domain and of internal/application/auth/errors.go
--   Domain/*.antt              internal/domain/{user,token,loginchallenge,totp,passwordreset}
--   Repository/*.antt          internal/repository/postgres: one function for each SQL statement,
--                              with the constraints and cascades of migrations/; TokenMap is
--                              the specification of the table of refresh tokens
--   Platform/*.antt            internal/platform/{tokenhash,totp,totpsecret,password,jwtauth}
--   Platform/Clients.antt      internal/platform/{mediaclient,apiaryclient,deletionclient}
--   Auth/Ports.antt            Service, its ports and its data (service.go, ports.go, dto.go)
--   Auth/Session.antt          issueSession, Refresh, Logout
--   Auth/Otp.antt              validateOTP, verifyOTP
--   Auth/Setup.antt            Register, beginTOTPSetup, issueLoginChallenge
--   Auth/Login.antt            Login, CurrentUser
--   Auth/Verify.antt           SetupVerifyOTP, LoginVerifyOTP, ChangePassword
--   Auth/Reset.antt            the three operations of service_password_reset.go
--   Auth/Account.antt          UpdateProfile, DeleteAccount
--   DeletionWorker.antt        RunOnce of deletion_worker.go
--   Http/Requests.antt         the validation in internal/transport/http/{auth,profile}/requests.go
--   Http/Responses.antt        writeServiceError of the two handlers
--   Http/Replies.antt          internal/transport/http/{auth,profile}/responses.go, and what a
--                              handler writes
--   Http/Handlers.antt         internal/transport/http/auth/handler.go
--   Http/Profile.antt          internal/transport/http/profile/handler.go
--   Http/Router.antt           the routes of internal/transport/http/router.go
--   Config.antt                internal/config/config.go
--   Server.antt                the clients of the deletion worker in cmd/server/main.go
--   Lifecycle.antt             runs of the whole service: requests to the router and ticks of the
--                              worker in any order, with changes of the session store in between
--   Tests.antt                 a small service on which the theorems are tried
--
-- Parameters of the model are SHA-256, HOTP, AES and GCM, bcrypt, the signature of access tokens,
-- the parsers and the environment of Go's standard library, the session store and the other
-- services (fields of Service, Parsers, Transport and Platform). Platform/{Password,Jwtauth}.antt
-- model what stands behind the hasher and the issuer, Platform/Clients.antt the clients of other
-- services. SessionLaws states what the comments on SessionActivator promise of the store.
-- RequireAuth of beebase-common is the parameter `authenticate` of the router.
--
-- One recursion has a bound of its own: the loop of ValidateAt, by the number of its rounds. All
-- else recurses on the data it reads. Requests and runs of the worker follow one another; their
-- statements are not interleaved. Not modelled, because they are input and output: the goroutines
-- that clean up devices, logging, middleware, health checks, connecting to the databases, serving
-- and shutting down, and the command-line tools.
pub mod Prelude
pub mod Errors
pub mod Domain
pub mod World
pub mod Repository
pub mod Platform
pub mod DeletionWorker
pub mod Auth
pub mod Http
pub mod Tests
pub mod Lifecycle
pub mod Config
pub mod Server
