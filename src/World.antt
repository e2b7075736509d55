-- ===== src/World.antt =====
-- The state that the services share: every document collection, the Redis blacklist, the audit
-- log, the permission overrides and the clock; and the actions over it, which return a value or
-- throw an HTTP exception. What was written before a throw stays written.
pub mod Laws
use securevault_backend.Prelude.{
  ℕ, ◌+◌, Bool, Option, none, some, String, List, [], ◌∷◌, ◌++◌, if◌then◌else◌, get_or, or_null,
  Text, Bytes,
}
use securevault_backend.Schema.{
  FileAccess, File, User, RefreshToken, Session, Device, EnrollmentToken, AuditEvent, AuditEntry,
  Outcome, PermissionOverride, Certificate, CertificateRevocation, SecretPath, Secret,
}

-- `storage` holds the bytes of stored files by their path, `secrets` the secrets of Vault by their
-- path, and `master_key` the key that the encryption service holds. `next_id` is the next
-- identifier that the database gives out, and the number of the next random draw; `now` is what the
-- clock reads.
pub record World : Type 0 where
  pub shares : List FileAccess
  pub files : List File
  pub users : List User
  pub refresh_tokens : List RefreshToken
  pub sessions : List Session
  pub devices : List Device
  pub enrollment_tokens : List EnrollmentToken
  pub permissions : List PermissionOverride
  pub certificates : List Certificate
  pub revocations : List CertificateRevocation
  pub storage : List (Text × Bytes)
  pub secrets : List (SecretPath × Secret)
  pub master_key : Option Bytes
  pub blacklist : List (ℕ × ℕ)
  pub audit : List AuditEntry
  pub next_id : ℕ
  pub now : ℕ

abbrev pub empty_world : World
empty_world = record {
  shares = [];
  files = [];
  users = [];
  refresh_tokens = [];
  sessions = [];
  devices = [];
  enrollment_tokens = [];
  permissions = [];
  certificates = [];
  revocations = [];
  storage = [];
  secrets = [];
  master_key = none;
  blacklist = [];
  audit = [];
  next_id = 1;
  now = 0;
}

-- The exceptions of NestJS that the services throw, with their message, and the error of a
-- write that a unique index of the database refuses, of a use of null, of a
-- document that its schema refuses, and of `new Error(…)`.
pub data Exception : Type 0 where
  bad_request unauthorized forbidden not_found conflict : String → Exception
  gone : String → Exception
  duplicate_key type_error validation_error : Exception
  failure : String → Exception

pub data Result (A : Type 0) : Type 0 where
  ok : A → Result A
  throw : Exception → Result A

abbrev pub Action : Type 0 → Type 0
Action A = World → Result A × World

module _ {A : Type 0} where
  abbrev pub pure : A → Action A
  pure a w = (ok a, w)

  abbrev pub raise : Exception → Action A
  raise e w = (throw e, w)

  abbrev pub gets : (World → A) → Action A
  gets f w = (ok (f w), w)

  -- `if (!value) throw …`
  abbrev pub or_raise : Option A → Exception → Action A
  or_raise none e = raise e
  or_raise (some a) _ = pure a

infixl 5 ◌>>=◌ ◌>>◌
abbrev pub ◌>>=◌ : {A B : Type 0} → Action A → (A → Action B) → Action B
◌>>=◌ m f w = let (r, w') = m w in elim r [ ok a ↦ f a w' | throw e ↦ raise e w' ]

abbrev pub ◌>>◌ : {A B : Type 0} → Action A → Action B → Action B
m >> k = m >>= λ _. k

-- `if (test) throw …`
abbrev pub raise_if : Bool → Exception → Action (Unit {0})
raise_if c e w = (if c then throw e else ok tt, w)

abbrev pub modify : (World → World) → Action (Unit {0})
modify f w = (ok tt, f w)

-- `new Date()`
abbrev pub clock : Action ℕ
clock w = (ok w.now, w)

-- An identifier for a new document.
abbrev pub new_id : Action ℕ
new_id w = (ok w.next_id, record w { next_id = w.next_id + 1 })

abbrev pub entry_of : AuditEvent → ℕ → AuditEntry
entry_of e now = record {
  action = e.action;
  resource = e.resource;
  resource_id = or_null e.resource_id;
  user_id = or_null e.user_id;
  user_email = or_null e.user_email;
  user_role = e.user_role;
  ip_address = or_null e.ip_address;
  user_agent = or_null e.user_agent;
  metadata = e.metadata;
  status = get_or e.status Outcome.success;
  timestamp = now;
}

-- `try { await action } catch { … }`, where the handler only writes to the logger
abbrev pub attempt : {A : Type 0} → Action A → Action (Unit {0})
attempt m w = (ok tt, (m w).1)

-- `AuditService.log`. It catches the errors of the write, so it never throws.
unfoldable pub log : AuditEvent → Action (Unit {0})
log e w = (ok tt, record w { audit = w.audit ++ entry_of e w.now ∷ [] })
