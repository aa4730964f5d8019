-- ===== src/Lib.antt =====
-- The HR platform's core services, their repositories and their tables.
--
-- The program is a NestJS server on PostgreSQL for many tenants. A request comes with the id of its
-- tenant; a service checks it against the rows that its repository reads, writes rows, and puts a
-- domain event into the table event_outbox. A dispatcher polls that table and hands the events to
-- their handlers. A change of an employee's status reaches into departments (the manager) and devices
-- (check-in by phone).
--
-- Which file models which part:
--   Shared, Shared/Table     SQL on lists of rows: a WHERE clause is a Boolean test, the order of the
--                            list is that of the scan; lemmas on queries after updates
--   Database, Database/Rows  the tables of src/database/schema, one record for each row
--   Exceptions, Events       src/common/exceptions, src/common/events, src/modules/*/events
--   Service                  actions on the database: a value, an exception, or no return; the
--                            request's context (src/common/context/tenant.context.ts) and
--                            OutboxService.writeEvent. Service/Ensures and Service/Keeps prove what
--                            actions keep, Service/Triple what they end in, one rule for
--                            each way to build them
--   Department               src/modules/department: Repository is DepartmentRepository, Operations is
--                            DepartmentService, Subtree is findSubtreeIds, Requests is the
--                            controller's writing routes
--   Employee                 src/modules/employee: the status machine, changeStatus, the salary, and what
--                            EmployeeFacade tells the department controller
--   Device                   DeviceService and DeviceRepository of src/modules/employee
--   Token                    TokenService and RefreshTokenRepository of src/modules/auth
--   Auth                     AuthService and UserRepository of src/modules/auth; Lockout, Passwords and
--                            Replay are about sequences of its calls
--   Outbox                   src/modules/outbox: the dispatcher; Idempotency and Cleanup are the services
--                            of those names
--   Rbac                     src/modules/rbac: SystemPermissions and SystemRoles are its constants,
--                            Repository its three repositories, Roles and Assignments RoleService and
--                            RbacService, Guard the permission guard, Seeding the permission seed,
--                            Requests the controller's writing routes
--   Json, Tenants            src/modules/tenant: the settings' JSON with deepMerge, what of it a jsonb
--                            column keeps (Json/Serialized), the status machine, the plans,
--                            TenantService and TenantSettingsService; Onboarding is the handler of
--                            tenant.created
--   Utils                    src/common/utils: working days, pagination, encrypted fields
-- Functions have the names of the source in snake case; X.Tests has rows to run them on.
--
-- Conventions. A UUID is a natural number; where the program compares a UUID of a request with
-- `===`, in updateDepartment and in revokeRoles, it is a text with a spelling (Shared/Uuid), since
-- PostgreSQL reads a UUID in any case. A timestamp is a natural number, in milliseconds;
-- `Context.uuid n` is the n-th random UUID of a request and `Context.now` its one time. An error of
-- the driver reaches the services wrapped by drizzle-orm, without its code. ILIKE, SHA-256, the
-- hash of a password, the rendering of a date, the calendar of date-fns, the timezones of the
-- runtime, AES-GCM and base64 and the handlers of events are parameters. The reflector of Nest is
-- an argument of the guard. Unique indexes are written out where an insertion or update can violate
-- them. The services open no transaction, so what was written before an exception stays written.
-- Response DTOs are the rows they are copied from. Left out: log lines, message texts, the order by
-- name of a listing, and validation by decorators.
--
-- Fuel. The loop of findSubtreeIds runs on fuel: one round for the root and one for each department
-- of the tenant, proved to be enough on a forest; where it runs out, the call is one that hangs.
-- Nothing else needs fuel: the other loops are over lists.
--
-- Not modelled: two requests at once (each is one step), a second dispatcher process, timers, the
-- signing of the access token, the client's address, the paged listings, and the parts of the
-- platform that are not in the list above: registration and password reset, the employee operations
-- other than changes of status and of salary, jobs. Money and hashing are thin layers over
-- decimal.js and node's crypto, and the rest of DateUtil over date-fns.
pub mod Shared
pub mod Exceptions
pub mod Events
pub mod Json
pub mod Database
pub mod Service
pub mod Department
pub mod Device
pub mod Employee
pub mod Token
pub mod Auth
pub mod Outbox
pub mod Rbac
pub mod Tenants
pub mod Utils
