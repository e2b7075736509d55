-- ===== src/Listings/Readable.antt =====
-- Which files `listFiles` shows (src/modules/files/files.service.ts).
use securevault_backend.Prelude.{
  not, ℕ, Bool, true, false, List, [], ◌∷◌, ◌≡◌, ◌⊎◌, refl, arith, ◌∙◌, count_documents, take, drop,
  find_all, All, All-append, Bool-cases, inl, inr, zero, suc,
}
use securevault_backend.Schema.{File, AccessLevel, Role, AuthenticatedUser}
use securevault_backend.World.{World}
use securevault_backend.Files.{is_owner, is_admin}
use securevault_backend.Files.Visibility.{MayRead}
use securevault_backend.Listings.Pages.{SameDocuments}
use securevault_backend.Listings.{
  Matching, FilesQuery, newest_first, visible_to, open_level, file_matches, list_files, find_page,
}

module _ {A : Type 0} (P : A → Type 0) where
  pub All-take : (n : ℕ) (xs : List A) → All P xs → All P (take n xs)
  All-take zero xs h = tt
  All-take (suc n) [] h = tt
  All-take (suc n) (x ∷ xs) h = (h.0, All-take n xs h.1)

  pub All-drop : (n : ℕ) (xs : List A) → All P xs → All P (drop n xs)
  All-drop zero xs h = h
  All-drop (suc n) [] h = tt
  All-drop (suc n) (x ∷ xs) h = All-drop n xs h.1

  pub All-newest_first : (xs : List A) → All P xs → All P (newest_first xs)
  All-newest_first [] h = tt
  All-newest_first (x ∷ xs) h =
      All-append P (newest_first xs) (x ∷ []) (All-newest_first xs h.1) (h.0, tt)

  pub All-find_all :
      (p : A → Bool) (ds : List A) → ((d : A) → p d ≡ true → P d) → All P (find_all p ds)
  All-find_all p [] each = tt
  All-find_all p (d ∷ ds) each = elim (Bool-cases (p d)) [
    | inl hit ↦ rw hit (each d hit, All-find_all p ds each)
    | inr miss ↦ rw miss (All-find_all p ds each)
  ]

-- A file that may be shown: it is not deleted, and the user may read it.
abbrev pub Shown : AuthenticatedUser → File → Type 0
Shown user f = (f.is_deleted ≡ false) × MayRead f user

admin-MayRead :
    (f : File) (id uuid email : ℕ) (role : Role)
    → let user : AuthenticatedUser = record {
      user_id = id;
      uuid = uuid;
      email = email;
      role = role;
    } in
      is_admin user ≡ true → MayRead f user
admin-MayRead f id uuid email Role.super_admin h = MayRead.super_admin refl
admin-MayRead f id uuid email Role.admin h = MayRead.admin refl
admin-MayRead f id uuid email Role.manager h = absurd cc
admin-MayRead f id uuid email Role.employee h = absurd cc
admin-MayRead f id uuid email Role.viewer h = absurd cc

open_level-cases :
    (a : AccessLevel)
    → open_level a ≡ true
    → (a ≡ AccessLevel.internal) ⊎ (a ≡ AccessLevel.everyone)
open_level-cases AccessLevel.internal h = inl refl
open_level-cases AccessLevel.everyone h = inr refl
open_level-cases AccessLevel.personal h = absurd cc
open_level-cases AccessLevel.department h = absurd cc

visible_to-Shown : (user : AuthenticatedUser) (f : File) → visible_to user f ≡ true → Shown user f
visible_to-Shown user f h = elim (Bool-cases (is_admin user)) [
  | inl admin ↦ (ground arith, admin-MayRead f user.user_id user.uuid user.email user.role admin)
  | inr plain ↦ elim (Bool-cases (is_owner f user)) [
    | inl own ↦ (ground arith, MayRead.owner (ground arith))
    | inr other ↦
        let shared : open_level f.access_level ≡ true = ground arith in
        (
          ground arith,
          elim (open_level-cases f.access_level shared) [
            | inl internal ↦ MayRead.internal internal
            | inr everyone ↦ MayRead.everyone everyone
          ],
        )
  ]
]

module _ {A : Type 0} where
  All-of_count :
      (p : A → Bool) (ds : List A)
      → count_documents (λ d. not (p d)) ds ≡ 0
      → All (λ d. p d ≡ true) ds
  All-of_count p [] none_other = tt
  All-of_count p (d ∷ ds) none_other = elim (Bool-cases (p d)) [
    | inl hit ↦ (hit, All-of_count p ds (ground (arith, none_other)))
    | inr miss ↦ absurd (ground (arith, none_other))
  ]

  count-find_all :
      (p : A → Bool) (ds : List A) → count_documents (λ d. not (p d)) (find_all p ds) ≡ 0
  count-find_all p [] = refl
  count-find_all p (d ∷ ds) = elim (Bool-cases (p d)) [
    | inl hit ↦ let rest = count-find_all p ds in rw hit (ground (arith, rest, hit))
    | inr miss ↦ let rest = count-find_all p ds in rw miss rest
  ]

  All-implied :
      (p : A → Bool) (P : A → Type 0) (ds : List A)
      → ((d : A) → p d ≡ true → P d)
      → All (λ d. p d ≡ true) ds
      → All P ds
  All-implied p P [] each h = tt
  All-implied p P (d ∷ ds) each h = (each d h.0, All-implied p P ds each h.1)

-- Whatever is searched for, and however the database orders the files that it finds, every file that
-- a listing shows a user is not deleted, and the user may read it by the rules of the access check.
pub list_files-Shown :
    (matching : Matching) (sort : List File → List File)
    → ((ds : List File) → SameDocuments (sort ds) ds)
    → (q : FilesQuery) (user : AuthenticatedUser) (w : World)
    → All (Shown user) (list_files matching sort q user w).data_of
unfolding list_files find_page
list_files-Shown matching sort same q user w =
    let p = file_matches matching q user in
    let found = find_all p w.files in
    let others = same found (λ f. not (p f)) ∙ count-find_all p w.files in
    All-take (Shown user) q.limit _ (
      All-drop (Shown user) _ (sort found) (
        All-implied p (Shown user) (sort found) (λ f h. visible_to-Shown user f (ground arith))
          (All-of_count p (sort found) others)))
