-- ===== src/Listings.antt =====
-- The paginated listings of users, devices, files and audit entries: `findAll` of
-- src/modules/users/users.service.ts, src/modules/devices/devices.service.ts and
-- src/modules/audit/audit.service.ts, and `listFiles` of src/modules/files/files.service.ts. They
-- only read. `sort` is what the database's sort of one query, the newest documents first, makes of
-- the documents that are found: it leaves open how documents of one time are ordered, also from
-- one query to the next.
pub mod Pages
pub mod Readable
pub mod SharedFiles
mod Tests
use securevault_backend.Prelude.{
  ℕ, ◌+◌, ◌-◌, ◌*◌, ◌/◌, Bool, true, false, ◌&&◌, ◌||◌, not, Option, none, some, String, List, [],
  ◌∷◌, ◌++◌, ◌==◌, ltb, leb, or_null, is_some, is_text, take, drop, find_all, count_documents, Text,
  codes, same_text, if◌then◌else◌,
}
use securevault_backend.Schema.{
  User, Role, same_role, Device, DeviceStatus, same_device_status, File, AccessLevel,
  AuthenticatedUser, AuditEntry, AuditAction, Certificate,
}
use securevault_backend.World.{World}
use securevault_backend.Users.{not_deleted}
use securevault_backend.Files.{is_owner, is_admin}

-- A page of documents with its place in the listing
pub record Page (A : Type 0) : Type 0 where
  pub data_of : List A
  pub total : ℕ
  pub page : ℕ
  pub limit : ℕ
  pub total_pages : ℕ
  pub has_next_page : Bool
  pub has_previous_page : Bool

-- `Math.ceil(total / limit)`, of a limit that is not 0
abbrev pub pages_of : ℕ → ℕ → ℕ
pages_of total limit = (total + (limit - 1)) / limit

-- The last created first
abbrev pub newest_first : {A : Type 0} → List A → List A
newest_first [] = []
newest_first (d ∷ ds) = newest_first ds ++ (d ∷ [])

-- `find(filter).sort({ createdAt: -1 }).skip(skip).limit(limit)` and `countDocuments(filter)`
unfoldable pub find_page : {A : Type 0} → (List A → List A) → (A → Bool) → ℕ → ℕ → List A → Page A
find_page sort p page limit ds =
    let total = count_documents p ds in
    record {
      data_of = take limit (drop ((page - 1) * limit) (sort (find_all p ds)));
      total = total;
      page = page;
      limit = limit;
      total_pages = pages_of total limit;
      has_next_page = ltb page (pages_of total limit);
      has_previous_page = ltb 1 page;
    }

-- `if (value) filter.field = …`
abbrev pub when_given : Option ℕ → (ℕ → Bool) → Bool
when_given given test = elim (or_null given) [ none ↦ true | some v ↦ test v ]

abbrev pub when_some : {A : Type 0} → Option A → (A → Bool) → Bool
when_some none test = true
when_some (some v) test = test v

-- `[.*+?^${}()|[\]\\]`
abbrev pub is_special : ℕ → Bool
is_special c =
    (c == 46)
    || ((c == 42)
        || ((c == 43)
            || ((c == 63)
                || ((c == 94)
                    || ((c == 36)
                        || ((c == 123)
                            || ((c == 125)
                                || ((c == 40)
                                    || ((c == 41)
                                        || ((c == 124)
                                            || ((c == 91) || ((c == 93) || (c == 92)))))))))))))

-- `search.replace(/[.*+?^${}()|[\]\\]/g, '\\$&')`
unfoldable pub escape_search : Text → Text
escape_search [] = []
escape_search (c ∷ cs) =
    let rest = escape_search cs in if is_special c then 92 ∷ c ∷ rest else c ∷ rest

-- A numbered text's code units, whether a stored text matches a pattern by the database's `$regex`
-- with the option `i`, and whether a stored text sorts at or before another.
pub record Matching : Type 0 where
  pub chars : ℕ → Text
  pub matches : Text → ℕ → Bool
  pub matches_action : Text → AuditAction → Bool
  pub name_before : ℕ → ℕ → Bool

abbrev pub bool_same : Bool → Bool → Bool
bool_same true b = b
bool_same false b = not b

pub record UsersQuery : Type 0 where
  pub page : ℕ
  pub limit : ℕ
  pub search : Option ℕ
  pub role : Option Role
  pub is_active : Option Bool
  pub department : Option ℕ

pub record DevicesQuery : Type 0 where
  pub page : ℕ
  pub limit : ℕ
  pub status : Option DeviceStatus
  pub employee_id : Option ℕ
  pub search : Option ℕ

pub record FilesQuery : Type 0 where
  pub page : ℕ
  pub limit : ℕ
  pub search : Option ℕ
  pub mime_type : Option ℕ
  pub access_level : Option AccessLevel
  pub department : Option ℕ

pub record AuditQuery : Type 0 where
  pub page : ℕ
  pub limit : ℕ
  pub action : Option ℕ
  pub user_id : Option ℕ
  pub resource : Option ℕ
  pub start_date : Option ℕ
  pub end_date : Option ℕ

-- `===` on access levels
abbrev pub same_level : AccessLevel → AccessLevel → Bool
same_level AccessLevel.personal AccessLevel.personal = true
same_level AccessLevel.internal AccessLevel.internal = true
same_level AccessLevel.department AccessLevel.department = true
same_level AccessLevel.everyone AccessLevel.everyone = true
same_level _ _ = false

-- `accessLevel: { $in: ['internal', 'public'] }`
abbrev pub open_level : AccessLevel → Bool
open_level AccessLevel.internal = true
open_level AccessLevel.everyone = true
open_level _ = false

-- Files that are not deleted: every one for an administrator, else the user's own and the open ones
abbrev pub visible_to : AuthenticatedUser → File → Bool
visible_to user f =
    not f.is_deleted && (is_admin user || (is_owner f user || open_level f.access_level))

module _ (matching : Matching) where
  abbrev pub found_by : ℕ → ℕ → Bool
  found_by search text = matching.matches (escape_search (matching.chars search)) text

  abbrev pub found_in : ℕ → Option ℕ → Bool
  found_in search none = false
  found_in search (some text) = found_by search text

  abbrev pub user_matches : UsersQuery → User → Bool
  user_matches q u =
      not_deleted u
      && (when_given q.search
            (λ s. found_by s u.email || (found_by s u.first_name || found_by s u.last_name))
          && (when_some q.role (λ r. same_role u.role r)
              && (when_some q.is_active (λ b. bool_same u.is_active b)
                  && when_given q.department (λ d. is_text u.department d))))

  unfoldable pub find_all_users : (List User → List User) → UsersQuery → World → Page User
  unfolding find_page
  find_all_users sort q w = find_page sort (user_matches q) q.page q.limit w.users

  abbrev pub device_matches : DevicesQuery → Device → Bool
  device_matches q d =
      when_some q.status (λ s. same_device_status d.status s)
      && (when_given q.employee_id (λ e. d.employee_id == e)
          && when_given q.search (λ s.
            found_in s d.hostname
            || (found_by s d.employee_id || (found_by s d.device_id || found_by s d.fingerprint))))

  unfoldable pub find_all_devices : (List Device → List Device) → DevicesQuery → World → Page Device
  unfolding find_page
  find_all_devices sort q w = find_page sort (device_matches q) q.page q.limit w.devices

  abbrev pub file_matches : FilesQuery → AuthenticatedUser → File → Bool
  file_matches q user f =
      visible_to user f
      && (when_given q.search (λ s. found_by s f.original_name)
          && (when_given q.mime_type (λ t. f.mime_type == t)
              && (when_some q.access_level (λ a. same_level f.access_level a)
                  && when_given q.department (λ d. is_text f.department d))))

  unfoldable pub list_files :
      (List File → List File) → FilesQuery → AuthenticatedUser → World → Page File
  unfolding find_page
  list_files sort q user w = find_page sort (file_matches q user) q.page q.limit w.files

  -- The action's pattern is not escaped.
  abbrev pub entry_matches : AuditQuery → AuditEntry → Bool
  entry_matches q e =
      when_given q.action (λ a. matching.matches_action (matching.chars a) e.action)
      && (when_given q.user_id (λ u. is_text e.user_id u)
          && (when_given q.resource (λ r. same_text (codes e.resource) (matching.chars r))
              && (when_some q.start_date (λ t. leb t e.timestamp)
                  && when_some q.end_date (λ t. leb e.timestamp t))))

  unfoldable pub find_all_entries :
      (List AuditEntry → List AuditEntry) → AuditQuery → World → Page AuditEntry
  unfolding find_page
  find_all_entries sort q w = find_page sort (entry_matches q) q.page q.limit w.audit

-- The devices of an account or of an employee, and the certificates of an account
abbrev pub devices_of_user : (List Device → List Device) → ℕ → World → List Device
devices_of_user sort user_id w = sort (find_all (λ (d : Device). d.user_id == user_id) w.devices)

abbrev pub devices_of_employee : (List Device → List Device) → ℕ → World → List Device
devices_of_employee sort employee_id w =
    sort (find_all (λ (d : Device). d.employee_id == employee_id) w.devices)

abbrev pub certificates_of_user :
    (List Certificate → List Certificate) → ℕ → World → List Certificate
certificates_of_user sort user_id w =
    sort (find_all (λ (c : Certificate). c.user_id == user_id) w.certificates)
