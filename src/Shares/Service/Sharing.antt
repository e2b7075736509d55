-- ===== src/Shares/Service/Sharing.antt =====
-- When `shareFile` shares a file, and what a refusal leaves.
use securevault_backend.Prelude.{
  ℕ, ◌+◌, ◌<◌, true, false, none, some, [], ◌∷◌, ◌++◌, ◌≡◌, refl, ◌≢◌, arith, ap, ◌==◌, inl, inr,
  find_one, Option-cases, Option, Bool, get_or, ◌↔◌,
}
use securevault_backend.Schema.{FileAccess, ShareStatus, File, User, AuthenticatedUser}
use securevault_backend.World.{World, Exception, Result, ok, throw, ◌>>=◌, ◌>>◌}
use securevault_backend.World.Laws.{read_then}
use securevault_backend.Shares.Validation.{active_for}
use securevault_backend.Shares.Service.{
  ShareFileRequest, ShareFileResponse, to_share_file_response, resolve_file, owned_file,
  target_user, future_date, no_active_share, create_share, create_validated, log_share_created,
  new_share, share_file,
}

module _ (dto : ShareFileRequest) (user : AuthenticatedUser) (ip : ℕ) (w : World) where
  -- The six validations that the service lists.
  pub record CanShare (file : File) (target : User) (expires_at : ℕ) : Type 0 where
    pub file_found : resolve_file dto.file_id w.files ≡ some file
    pub not_deleted : file.is_deleted ≡ false
    pub owned : file.uploaded_by ≡ user.user_id
    pub target_found : find_one (λ u. u.id == dto.shared_with_user_id) w.users ≡ some target
    pub target_kept : target.deleted_at ≡ none
    pub target_active : target.is_active ≡ true
    pub not_self : dto.spelled_as_id ≡ true → dto.shared_with_user_id ≢ user.user_id
    pub dated : dto.expires_at ≡ some expires_at
    pub in_future : w.now < expires_at
    pub no_duplicate : find_one (active_for file.id dto.shared_with_user_id) w.shares ≡ none

  owned_file_reads : (owned_file dto.file_id user w).1 ≡ w
  unfolding owned_file
  owned_file_reads = ground arith

  owned_file_ok :
      (file : File)
      → (owned_file dto.file_id user w).0 ≡ ok file
      → (resolve_file dto.file_id w.files ≡ some file)
        × (file.is_deleted ≡ false)
        × (file.uploaded_by ≡ user.user_id)
  unfolding owned_file
  owned_file_ok file h = elim (Option-cases (resolve_file dto.file_id w.files)) [
    | inl e ↦ absurd (ground arith)
    | inr (f, e) ↦ (ground arith, ground arith, ground arith)
  ]

  target_user_reads : (target_user dto.shared_with_user_id dto.spelled_as_id user w).1 ≡ w
  unfolding target_user
  target_user_reads = ground arith

  target_user_ok :
      (target : User)
      → (target_user dto.shared_with_user_id dto.spelled_as_id user w).0 ≡ ok target
      → (find_one (λ u. u.id == dto.shared_with_user_id) w.users ≡ some target)
        × (target.deleted_at ≡ none)
        × (target.is_active ≡ true)
        × (dto.spelled_as_id ≡ true → dto.shared_with_user_id ≢ user.user_id)
  unfolding target_user
  target_user_ok target h =
      elim (Option-cases (find_one (λ u. u.id == dto.shared_with_user_id) w.users)) [
        | inl e ↦ absurd (ground arith)
        | inr (t, e) ↦ (ground arith, ground arith, ground arith, λ spelled. ground arith)
      ]

  future_date_reads : (future_date dto.expires_at w).1 ≡ w
  unfolding future_date
  future_date_reads = ground arith

  future_date_ok :
      (t : ℕ) → (future_date dto.expires_at w).0 ≡ ok t → (dto.expires_at ≡ some t) × (w.now < t)
  unfolding future_date
  future_date_ok t h = (ground arith, ground arith)

  no_active_share_reads : (file_id : ℕ) → (no_active_share file_id dto.shared_with_user_id w).1 ≡ w
  unfolding no_active_share
  no_active_share_reads file_id = ground arith

  no_active_share_ok :
      (file_id : ℕ)
      → (no_active_share file_id dto.shared_with_user_id w).0 ≡ ok tt
      → find_one (active_for file_id dto.shared_with_user_id) w.shares ≡ none
  unfolding no_active_share
  no_active_share_ok file_id h = ground arith

  -- The new share, with the identifier and the time that the call reads.
  abbrev pub shared : File → ℕ → FileAccess
  shared file expires_at = new_share dto file.id user expires_at w.next_id w.now

  -- The share that a request describes: an active one of the file with the target user, with the
  -- requested permission, expiry and restrictions, from now on and without a download.
  pub record Requested (file : File) (expires_at : ℕ) (s : FileAccess) : Type 0 where
    pub id_new : s.id ≡ w.next_id
    pub of_file : s.file_id ≡ file.id
    pub by_owner : s.owner_id ≡ user.user_id
    pub with_user : s.shared_with_user_id ≡ dto.shared_with_user_id
    pub as_active : s.status ≡ ShareStatus.active
    pub as_permitted : s.permission ≡ dto.permission
    pub from_now : (s.shared_at ≡ w.now) × (s.created_at ≡ w.now)
    pub until_expiry : s.expires_at ≡ expires_at
    pub not_downloaded : s.download_count ≡ 0
    pub within : s.max_downloads ≡ dto.max_downloads
    pub once : (s.one_time_access ≡ true) ↔ (dto.one_time_access ≡ some true)
    pub marked : (s.watermark_enabled ≡ true) ↔ (dto.watermark_enabled ≡ some true)
    pub on_device : s.allowed_device_certificate_id ≡ dto.allowed_device_certificate_id

  given_true : (o : Option Bool) → (get_or o false ≡ true) ↔ (o ≡ some true)
  given_true none = (λ h. absurd cc, λ h. absurd cc)
  given_true (some true) = (λ h. refl, λ h. refl)
  given_true (some false) = (λ h. absurd cc, λ h. absurd cc)

  shared-Requested :
      (file : File) (expires_at : ℕ) → Requested file expires_at (shared file expires_at)
  shared-Requested file expires_at = record {
    id_new = refl;
    of_file = refl;
    by_owner = refl;
    with_user = refl;
    as_active = refl;
    as_permitted = refl;
    from_now = (refl, refl);
    until_expiry = refl;
    not_downloaded = refl;
    within = refl;
    once = given_true dto.one_time_access;
    marked = given_true dto.watermark_enabled;
    on_device = refl;
  }

  -- What a call leaves behind.
  abbrev pub Leaves : Result ShareFileResponse × World → Type 0
  Leaves (throw e, w') = w' ≡ w
  Leaves (ok r, w') =
      (file : File) × (target : User) × (expires_at : ℕ) × CanShare file target expires_at
      × (s : FileAccess) × Requested file expires_at s
      × (r ≡ to_share_file_response s)
      × (w'.shares ≡ w.shares ++ s ∷ [])
      × (w'.next_id ≡ w.next_id + 1)

  can_of :
      (file : File) (target : User) (expires_at : ℕ)
      → owned_file dto.file_id user w ≡ (ok file, w)
      → target_user dto.shared_with_user_id dto.spelled_as_id user w ≡ (ok target, w)
      → future_date dto.expires_at w ≡ (ok expires_at, w)
      → no_active_share file.id dto.shared_with_user_id w ≡ (ok tt, w)
      → CanShare file target expires_at
  can_of file target expires_at f t d n =
      let (found, kept, owned) = owned_file_ok file (ap (λ r. r.0) f) in
      let (known, here, active, other) = target_user_ok target (ap (λ r. r.0) t) in
      let (dated, later) = future_date_ok expires_at (ap (λ r. r.0) d) in
      record {
        file_found = found;
        not_deleted = kept;
        owned = owned;
        target_found = known;
        target_kept = here;
        target_active = active;
        not_self = other;
        dated = dated;
        in_future = later;
        no_duplicate = no_active_share_ok file.id (ap (λ r. r.0) n);
      }

  create_share_new :
      (doc : FileAccess) (v : World)
      → find_one (active_for doc.file_id doc.shared_with_user_id) v.shares ≡ none
      → create_share doc v ≡ (ok doc, record v { shares = v.shares ++ doc ∷ [] })
  unfolding create_share
  create_share_new doc v h = ground (arith, h)

  create_validated_new :
      (file : File) (target : User) (expires_at : ℕ)
      → CanShare file target expires_at
      → create_validated dto file target expires_at user ip w ≡ (
        ok (to_share_file_response (shared file expires_at)),
        (log_share_created dto file target (shared file expires_at) user ip (record w {
          shares = w.shares ++ shared file expires_at ∷ [];
          next_id = w.next_id + 1;
        })).1,
      )
  unfolding create_validated
  create_validated_new file target expires_at can = ground (
    arith,
    create_share_new (shared file expires_at) (record w { next_id = w.next_id + 1 })
        can.no_duplicate,
  )

  create_validated-Leaves :
      (file : File) (target : User) (expires_at : ℕ)
      → CanShare file target expires_at
      → Leaves (create_validated dto file target expires_at user ip w)
  unfolding log_share_created
  create_validated-Leaves file target expires_at can =
      rw (create_validated_new file target expires_at can) (
        file,
        target,
        expires_at,
        can,
        shared file expires_at,
        shared-Requested file expires_at,
        refl,
        refl,
        refl,
      )

  -- The validations in their order, for any statement about the outcome.
  share_file_elim :
      (P : Result ShareFileResponse × World → Type 0)
      → ((e : Exception) → P (throw e, w))
      → ((file : File) (target : User) (expires_at : ℕ)
          → CanShare file target expires_at
          → P (create_validated dto file target expires_at user ip w))
      → P (share_file dto user ip w)
  unfolding share_file
  share_file_elim P refuse accept =
      let checked = λ (file : File) (target : User) (expires_at : ℕ).
        no_active_share file.id dto.shared_with_user_id
        >> create_validated dto file target expires_at user ip in
      let dated =
        λ (file : File) (target : User). future_date dto.expires_at >>= checked file target in
      let targeted = λ (file : File).
        target_user dto.shared_with_user_id dto.spelled_as_id user >>= dated file in
      read_then targeted w P (owned_file dto.file_id user) owned_file_reads refuse λ file f.
        read_then (dated file) w P (target_user dto.shared_with_user_id dto.spelled_as_id user)
          target_user_reads refuse
          λ target t.
            read_then (checked file target) w P (future_date dto.expires_at) future_date_reads
              refuse
              λ expires_at d.
                read_then (λ _. create_validated dto file target expires_at user ip) w P
                  (no_active_share file.id dto.shared_with_user_id) (no_active_share_reads file.id)
                  refuse
                  λ _ n. accept file target expires_at (can_of file target expires_at f t d n)

  -- A request is refused with nothing changed, or the six validations hold, and exactly one share is
  -- added, which is the one that the request describes, active and under a new identifier; the
  -- answer is that share's.
  pub share_file-Leaves : Leaves (share_file dto user ip w)
  share_file-Leaves = share_file_elim Leaves (λ e. refl) create_validated-Leaves

  -- A valid request is never refused.
  pub share_file-CanShare :
      (file : File) (target : User) (expires_at : ℕ)
      → CanShare file target expires_at
      → (share_file dto user ip w).0 ≡ ok (to_share_file_response (shared file expires_at))
  unfolding share_file
  share_file-CanShare file target expires_at can =
      ground (arith, create_validated_new file target expires_at can)
