-- ===== src/Lib.antt =====
-- A verification library for the SecureVault backend, a NestJS service that keeps encrypted files,
-- shares them between accounts, and authenticates accounts by passwords, tokens and devices.
--
-- The parts and where they are modelled:
--   Prelude      tests on numbers, lists, texts, bytes with their hexadecimal text, association
--                lists, and document collections with the queries and updates that the services
--                make of them.
--   Schema       the documents: src/modules/*/schemas, the enumerations and the audit events.
--   World        the state that the services share, actions over it, the audit log
--                (src/modules/audit/audit.service.ts), and rules for actions.
--   Env          what comes from outside the repository: bcrypt, SHA-256 and the JWT library,
--                and the doubles of JavaScript.
--   Shares       src/modules/shares: Permission is the hierarchy of permissions, Validation is
--                FileAccessValidationService, Service is ShareService; Change, Runs, Limits and
--                Closing hold the theorems.
--   Permissions  src/modules/permissions and src/modules/auth/guards/roles.guard.ts.
--   Users        src/modules/users/users.service.ts; Attempts is its counting of failed logins.
--   Admin        src/modules/admin/admin.service.ts, the management of accounts; Desk is what it
--                passes on to the other services.
--   Sessions     src/modules/sessions/sessions.service.ts.
--   Auth         src/modules/auth/auth.service.ts and src/modules/auth/strategies/jwt.strategy.ts;
--                the children Expiration, Passwords and Logout hold operations, the others
--                theorems.
--                CertificateLogin is the login by certificate.
--   Devices      src/modules/devices/devices.service.ts.
--   Certificates src/modules/certificates/certificates.service.ts; Pem is the text functions of
--                src/shared/utils/certificate.util.ts, VaultPki the calls of
--                src/modules/vault/vault-pki.service.ts.
--   Setup        src/modules/setup/setup.service.ts: enrollment tokens, the enrollment of devices
--                and the renewal of certificates.
--   Vault        src/modules/vault/vault.service.ts: secrets, and the connection with its retries.
--   Encryption   src/modules/encryption/encryption.service.ts: data keys wrapped by the master key,
--                and the keys kept in Vault.
--   Storage      src/modules/storage: files on the local disk under resolved paths.
--   Files        src/modules/files/files.service.ts: the access check and the deletion; Names is
--                src/shared/utils/file.util.ts, Transfer the upload and the download.
--   Listings     the paginated findAll of users, devices and audit entries, and listFiles, with
--                src/common/dto/pagination.dto.ts; SharedFiles is the listing of shares.
--
-- State and operations. A service method is a function of the same name in snake_case. It is an
-- action: it takes the world, the record of all collections, and returns a value or an exception
-- with the world afterwards; what was written before an exception stays written. Services call one
-- another as the code does: Admin uses Users and the audit log, Auth uses Users, Sessions and
-- Certificates, Setup uses Devices and Certificates, Files uses Encryption and Storage, and
-- Encryption uses Vault. One action runs alone; where the code reads and writes in separate steps, the steps are separate
-- actions, and a theorem about concurrent requests orders them.
--
-- Conventions. A collection is the list of its documents in insertion order, and a query finds
-- the first match. The unique indexes that the theorems need are checked where a document is
-- created. Identifiers, texts and times are native natural numbers: the empty text is 0, times are
-- in milliseconds, and the clock is the field `now` of the world. A value that may be null or
-- absent is an Option. The access levels 'private' and 'public' are `personal` and `everyone`.
-- Random values (salts, temporary passwords) are arguments, and new identifiers come from a
-- counter. Saving a Mongoose document writes the fields that were set. Messages that interpolate
-- values keep their fixed part.
--
-- Texts. Most texts are numbers. Where the code looks inside a text (PEM files, serial numbers,
-- file names, storage paths, hexadecimal), it is the list of its UTF-16 code units, and a function
-- `chars` or `number` of the environment joins the two views. `lower` changes the letters of ASCII
-- only.
--
-- The environment. Vault is a record that says when the server is reached and refuses a request;
-- its key-value engine keeps the last value of a path. Crypto is the cipher, the random bytes and
-- the hash, and CryptoLaws what is relied on of them; Pki is X.509 parsing and Vault's PKI engine;
-- Disk is the directory of the uploads and when a write fails; Host gives UUIDs and the local date;
-- Matching is how the database's $regex matches a stored text.
-- Each has a small instance in a Tests module.
--
-- The order of a listing is a parameter, the sort of one query, since the database leaves open how
-- documents of one time are ordered; the listing of shares keeps such documents in the order of
-- their creation. The identifier in a request to share is an ObjectId with the mark whether the
-- text is the ObjectId's own spelling.
--
-- Bounds. Every loop of the code is a recursion on a list, or on the attempts that are left. The
-- digits of a number are read on fuel, with the number itself as the fuel, which is more than it
-- has digits. Counters are unbounded; the code's are JavaScript numbers, exact far beyond any count
-- reached here. A lifetime that is read from the configuration is rounded to a double.
--
-- Not modelled: the logger; failures of the database, of Redis and of the audit log's writes;
-- identifiers that are no ObjectId (their cast fails before a query); the trimming of e-mail
-- addresses; the deletion of expired tokens by the database; the validation of DTOs and the
-- routes; the certificate chain, whose check the code only logs; the text of the development
-- certificates; Vault's transit engine; streams; queues; times beyond those that a Date holds;
-- the fields that a listing leaves out of its documents, and those that it populates.
pub mod Prelude
pub mod Schema
pub mod World
pub mod Env
pub mod Shares
pub mod Permissions
pub mod Users
pub mod Sessions
pub mod Admin
pub mod Auth
pub mod Devices
pub mod Certificates
pub mod Setup
pub mod Vault
pub mod Encryption
pub mod Storage
pub mod Files
pub mod Listings
