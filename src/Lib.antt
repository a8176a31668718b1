-- ===== src/Lib.antt =====
-- The SSI service (README.md): a Go service that issues and verifies decentralised credentials. Its
-- services keep their state in one key-value store, in namespaces, and this library models the
-- store, the services that decide what is stored, and how they use it.
--
-- The store is `ServiceStorage` (pkg/storage/storage.go), a record of operations on a state `S`.
-- Storage/Contract has the interface, what its clients rely on (`IsLawful`), and `Execute`, whose
-- business logic reads the committed store and writes to the transaction. The stores:
--   Storage/Bolt       pkg/storage/bolt.go over bbolt, which is a record of the library's functions
--   Storage/Redis      pkg/storage/redis.go over go-redis: entries and scans (Redis, Scan), and optimistic
--                      transactions that are tried again (Transaction)
--   Storage/Encrypt    pkg/storage/encrypt.go around another store, with the ciphers of Encryption,
--                      which is internal/encryption/encryption.go, and of Encryption/Crypto, which
--                      is internal/util/crypto.go
-- Storage/Update has `Update`, `UpdateValueAndOperation` and the updaters of pkg/storage/storage.go
-- and bolt.go, and Storage/Kind what the stores of values that have an id share. The services take
-- any store as a parameter, and their theorems its contract:
--   Operation          pkg/service/operation: the ids and namespaces of operations (Ids), the stored
--                      form and the updater that marks one as done (Stored), the store (Storage)
--                      and the service (Service)
--   Presentation       pkg/service/presentation: definitions and submissions in the store (Storage),
--                      creation and review of submissions, definitions (Service)
--   Credential         pkg/service/credential and internal/credential/model.go: keys (Keys), stored
--                      form (Stored), the store (Storage), the indexes that a status list gives out
--                      (Indexes), status entries and updates (Status), the creation of credentials
--                      (Service) and the other requests (Service/Requests)
--   Manifest           pkg/service/manifest: the store and the review of an application (Manifest), the
--                      checks of an application (Application), what is issued for it (Fulfillment),
--                      the responses (Responses), the service (Service) and its manifests (Creation)
--   Issuance           pkg/service/issuance: templates (Stored) and their service
--   Schema             pkg/service/schema: schemas, signed and stored
--   Requests           pkg/service/common: requests and their JWT, and the requests of the services of
--                      presentations and manifests (Service)
--   Did                pkg/service/did: the methods and namespaces of DIDs (Ids), the store (Storage), the
--                      handlers of the methods key and web (Handlers), the service and the resolver
--                      (Service), batches (Batch)
--   Keystore           pkg/service/keystore: keys, their revocation, signing, and the key that encrypts
--                      the store (ServiceKey)
--   Webhook            pkg/service/webhook: the URLs registered for an event
--   Pagination         pkg/server/pagination/pagination.go and pkg/service/common/pagination.go
-- Prelude has the shared names, Json the documents and what is relied on of the JSON library, and
-- Tests concrete libraries (a bbolt in memory, a codec, a cipher) and runs.
--
-- A method is a function of its arguments and the state, with a result and the new state; an error
-- keeps its cause, and its messages and the log are left out. A panic is the error `panic`. A Go
-- map is an association list, a nil slice `none`, and the page size -1 `none`. `int` is ℕ, where
-- the source has no negative value. Numbers in documents are ℕ, bounded by 255 where the field is a
-- `uint8`. Clocks, UUIDs, random orders and what the SSI SDK computes are arguments. Two functions
-- have fuel: `walk` of Storage/Bolt/Pages, a client that follows page tokens, for which one request
-- more than there are entries is enough, and the scan of Storage/Redis, for which one unit for each
-- batch of the server is enough. An execution on Redis is given the tries that fit into its time.
--
-- Not modelled: the SQL store, which is a client of another program; the opening of files and
-- connections; watch keys on Bolt, which ignores them; the method ION and the universal resolver;
-- HTTP, configuration, logging and tracing. Bolt runs
-- one writer at a time; on Redis, what other clients do is an argument of each try.

pub mod Prelude
pub mod Json
pub mod Encryption
pub mod Storage
pub mod Operation
pub mod Presentation
pub mod Keystore
pub mod Webhook
pub mod Pagination
pub mod Credential
pub mod Did
pub mod Requests
pub mod Schema
pub mod Issuance
pub mod Manifest
mod Tests
