-- ===== src/Files/Visibility.antt =====
-- Who may read and who may delete a stored file.
use securevault_backend.Prelude.{
  ℕ, List, true, false, none, some, ◌≡◌, refl, ◌∙◌, ap, ◌↔◌, ◌⊎◌, inl, inr, arith, ◌==◌, update_one,
  Bool-cases, Option-cases,
}
use securevault_backend.Schema.{File, AccessLevel, Role, AuthenticatedUser}
use securevault_backend.World.{World, ok, throw, Exception, not_found, log}
use securevault_backend.World.Laws.{bind-ok, bind-throw}
use securevault_backend.Files.{
  find_file, is_owner, check_file, find_file_with_access_check, remove_file, delete_file,
}

-- Who may read a file: its owner, an administrator, everybody for an internal or public one, and
-- a manager for one of a department.
pub data MayRead (file : File) (user : AuthenticatedUser) : Type 0 where
  owner : file.uploaded_by ≡ user.user_id → MayRead file user
  super_admin : user.role ≡ Role.super_admin → MayRead file user
  admin : user.role ≡ Role.admin → MayRead file user
  internal : file.access_level ≡ AccessLevel.internal → MayRead file user
  everyone : file.access_level ≡ AccessLevel.everyone → MayRead file user
  manager :
      file.access_level ≡ AccessLevel.department → user.role ≡ Role.manager → MayRead file user

Role-cases :
    (r : Role)
    → (r ≡ Role.super_admin)
      ⊎ (r ≡ Role.admin)
      ⊎ (r ≡ Role.manager)
      ⊎ (r ≡ Role.employee)
      ⊎ (r ≡ Role.viewer)
Role-cases Role.super_admin = inl refl
Role-cases Role.admin = inr (inl refl)
Role-cases Role.manager = inr (inr (inl refl))
Role-cases Role.employee = inr (inr (inr (inl refl)))
Role-cases Role.viewer = inr (inr (inr (inr refl)))

AccessLevel-cases :
    (a : AccessLevel)
    → (a ≡ AccessLevel.personal)
      ⊎ (a ≡ AccessLevel.internal)
      ⊎ (a ≡ AccessLevel.department)
      ⊎ (a ≡ AccessLevel.everyone)
AccessLevel-cases AccessLevel.personal = inl refl
AccessLevel-cases AccessLevel.internal = inr (inl refl)
AccessLevel-cases AccessLevel.department = inr (inr (inl refl))
AccessLevel-cases AccessLevel.everyone = inr (inr (inr refl))

check_file_sound :
    (file : File) (user : AuthenticatedUser) (w : World)
    → check_file file user false w ≡ (ok file, w)
    → MayRead file user
unfolding check_file
check_file_sound file user w h = elim (Bool-cases (is_owner file user)) [
  | inl own ↦ MayRead.owner (ground arith)
  | inr other ↦ elim (AccessLevel-cases file.access_level) [
    | inr (inl e) ↦ MayRead.internal e
    | inr (inr (inr e)) ↦ MayRead.everyone e
    | inl level ↦ elim (Role-cases user.role) [
      | inl r ↦ MayRead.super_admin r
      | inr (inl r) ↦ MayRead.admin r
      | inr (inr (inl r)) ↦ absurd (let wrong = rw (other, level, r) at h in cc)
      | inr (inr (inr (inl r))) ↦ absurd (let wrong = rw (other, level, r) at h in cc)
      | inr (inr (inr (inr r))) ↦ absurd (let wrong = rw (other, level, r) at h in cc)
    ]
    | inr (inr (inl level)) ↦ elim (Role-cases user.role) [
      | inl r ↦ MayRead.super_admin r
      | inr (inl r) ↦ MayRead.admin r
      | inr (inr (inl r)) ↦ MayRead.manager level r
      | inr (inr (inr (inl r))) ↦ absurd (let wrong = rw (other, level, r) at h in cc)
      | inr (inr (inr (inr r))) ↦ absurd (let wrong = rw (other, level, r) at h in cc)
    ]
  ]
]

check_file_complete :
    (file : File) (user : AuthenticatedUser) (w : World)
    → MayRead file user
    → check_file file user false w ≡ (ok file, w)
unfolding check_file
check_file_complete file user w (MayRead.owner e) =
    let own : is_owner file user ≡ true = ground arith in ground arith
check_file_complete file user w (MayRead.super_admin e) = ground arith
check_file_complete file user w (MayRead.admin e) = ground arith
check_file_complete file user w (MayRead.internal e) = ground arith
check_file_complete file user w (MayRead.everyone e) = ground arith
check_file_complete file user w (MayRead.manager e r) = ground arith

check_file-same :
    (g file : File) (user : AuthenticatedUser) (w : World)
    → check_file g user false w ≡ (ok file, w)
    → g ≡ file
unfolding check_file
check_file-same g file user w h = ground arith

-- The access check for reading returns a file exactly when it is the file that is found, by its
-- uuid or else by its identifier, among those not deleted, and the user may read it; then nothing
-- changes.
pub find_file_with_access_check-MayRead_iff :
    (file_id : ℕ) (user : AuthenticatedUser) (w : World) (file : File)
    → (find_file_with_access_check file_id user false w ≡ (ok file, w))
      ↔ ((find_file file_id w ≡ some file) × MayRead file user)
unfolding find_file_with_access_check
find_file_with_access_check-MayRead_iff file_id user w file = (
  λ h. elim (Option-cases (find_file file_id w)) [
    | inl missing ↦ absurd (let wrong = rw missing at h in cc)
    | inr (g, found) ↦
        let here : check_file g user false w ≡ (ok file, w) = rw found at h in
        let same = check_file-same g file user w here in
        (found ∙ ap some same, check_file_sound file user w (rw same at here))
  ],
  λ h. rw (h.0) (check_file_complete file user w h.1),
)

abbrev pub MayDelete : File → AuthenticatedUser → Type 0
MayDelete file user =
    (file.uploaded_by ≡ user.user_id) ⊎ (user.role ≡ Role.super_admin) ⊎ (user.role ≡ Role.admin)

delete_check :
    (g : File) (user : AuthenticatedUser) (w : World)
    → ((check_file g user true w ≡ (ok g, w)) × MayDelete g user)
      ⊎ ((e : Exception) × (check_file g user true w ≡ (throw e, w)) × ¬ (MayDelete g user))
unfolding check_file
delete_check g user w = elim (Bool-cases (is_owner g user)) [
  | inl own ↦ rw own (inl (refl, inl (ground arith)))
  | inr other ↦ elim (Role-cases user.role) [
    | inl r ↦ rw (other, r) (inl (refl, inr (inl refl)))
    | inr (inl r) ↦ rw (other, r) (inl (refl, inr (inr refl)))
    | inr (inr (inl r)) ↦ rw (other, r) (inr (_, refl, λ h. ground arith))
    | inr (inr (inr (inl r))) ↦ rw (other, r) (inr (_, refl, λ h. ground arith))
    | inr (inr (inr (inr r))) ↦ rw (other, r) (inr (_, refl, λ h. ground arith))
  ]
]

delete_found :
    (file_id : ℕ) (user : AuthenticatedUser) (w : World) (g : File)
    → find_file file_id w ≡ some g
    → find_file_with_access_check file_id user true w ≡ check_file g user true w
unfolding find_file_with_access_check
delete_found file_id user w g found = rw found refl

delete_missing :
    (file_id : ℕ) (user : AuthenticatedUser) (w : World)
    → find_file file_id w ≡ none
    → find_file_with_access_check file_id user true w ≡ (throw (not_found "File not found"), w)
unfolding find_file_with_access_check
delete_missing file_id user w missing = rw missing refl

-- The files once one of them, with the identifier of a file, is marked as deleted by a user, and
-- nothing else about it or any other file has changed.
abbrev pub marked_deleted : File → AuthenticatedUser → World → List File
marked_deleted file user w =
    update_one (λ f. f.id == file.id)
      (λ f. record f { is_deleted = true; deleted_at = some w.now; deleted_by = some user.user_id })
      w.files

remove_file-files :
    (user : AuthenticatedUser) (ip : ℕ) (g : File) (w : World)
    → ((remove_file user ip g w).0 ≡ ok tt)
      × ((remove_file user ip g w).1.files ≡ marked_deleted g user w)
unfolding remove_file log
remove_file-files user ip g w = (refl, refl)

-- Deleting a file succeeds exactly when the file is found and the user is its owner or an
-- administrator. Then the file that is found is marked as deleted, with the time and the user, and
-- no other file and nothing else about it is changed.
pub delete_file-MayDelete :
    (file_id : ℕ) (user : AuthenticatedUser) (ip : ℕ) (w : World)
    → (((delete_file file_id user ip w).0 ≡ ok tt)
        ↔ ((file : File) × (find_file file_id w ≡ some file) × MayDelete file user))
      × ((file : File)
          → find_file file_id w ≡ some file
          → MayDelete file user
          → (delete_file file_id user ip w).1.files ≡ marked_deleted file user w)
unfolding delete_file
delete_file-MayDelete file_id user ip w =
    let check = find_file_with_access_check file_id user true in
    elim (Option-cases (find_file file_id w)) [
      | inl missing ↦
          let step : delete_file file_id user ip w ≡ (throw (not_found "File not found"), w) =
            bind-throw check (remove_file user ip) w w _ (delete_missing file_id user w missing) in
          rw (step, missing)
            ((λ h. absurd cc, λ h. let (f, e, _) = h in absurd cc), λ f e m. absurd cc)
      | inr (g, found) ↦ elim (delete_check g user w) [
        | inl (passes, may) ↦
            let step : delete_file file_id user ip w ≡ remove_file user ip g w =
              bind-ok check (remove_file user ip) w w g
                (delete_found file_id user w g found ∙ passes) in
            let (done, files) = remove_file-files user ip g w in
            rw (step, found)
              (
                (λ _. (g, refl, may), λ _. done),
                λ f same m. let here : g ≡ f = ground arith in rw (← here) files,
              )
        | inr (e, stops, may_not) ↦
            let step : delete_file file_id user ip w ≡ (throw e, w) =
              bind-throw check (remove_file user ip) w w e
                (delete_found file_id user w g found ∙ stops) in
            let other : (f : File) → some g ≡ some f → ¬ (MayDelete f user) =
              λ f same m. may_not (let here : g ≡ f = ground arith in rw here m) in
            rw (step, found)
              (
                (λ h. absurd cc, λ h. let (f, same, m) = h in absurd (other f same m)),
                λ f same m. absurd (other f same m),
              )
      ]
    ]
