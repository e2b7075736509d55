-- ===== src/Admin/Escalation.antt =====
-- Which roles the operations of an administrator can give to accounts.
use securevault_backend.Prelude.{
  ℕ, ◌≤◌, Bool, true, false, not, Option, some, [], ◌∷◌, ◌≡◌, refl, arith, ◌==◌, leb, get_or,
  is_some, find_one, count_documents, update_one, find_one-update_one, find_one-holds,
  count_documents-append, count_documents-update_one-le,
}
use securevault_backend.Schema.{Role, same_role, User, AuthenticatedUser, AuditEvent}
use securevault_backend.World.{
  not_found, conflict, forbidden, World, Action, ok, log, Exception, raise_if, or_raise, pure, gets,
  modify, new_id, ◌>>=◌, ◌>>◌,
}
use securevault_backend.World.Laws.{
  Always, Always-bind, Always-pure, Always-gets, Always-check, Always-raise_if, Always-or_raise,
  bind-ok,
}
use securevault_backend.Env.{Env}
use securevault_backend.Permissions.{role_hierarchy}
use securevault_backend.Users
use securevault_backend.Users.{CreateUserDto, UpdateUserDto, user_by_id, set_dto}
use securevault_backend.Admin.{
  validate_role_change, create_user, updated, update_user, activate_user, deactivate_user,
  reset_user_password, change_user_role,
}

-- The account has at least the rank of a role.
abbrev pub ranks_with : Role → User → Bool
ranks_with role u = leb (role_hierarchy role) (role_hierarchy u.role)

-- The number of accounts with at least the administrator's rank does not grow.
abbrev pub NoPromotion : AuthenticatedUser → World → World → Type 0
NoPromotion admin w w' =
    count_documents (ranks_with admin.role) w'.users
    ≤ count_documents (ranks_with admin.role) w.users

module _ (admin : AuthenticatedUser) where
  abbrev Safe : {A : Type 0} → Action A → Type 0
  Safe m = Always (NoPromotion admin) m

  log-Safe : (e : AuditEvent) → Safe (log e)
  unfolding Always log
  log-Safe e w = omega arith

  pure-Safe : {A : Type 0} (a : A) → Safe (pure a)
  pure-Safe = Always-pure (NoPromotion admin) (λ w. omega arith)

  gets-Safe : {A : Type 0} (f : World → A) → Safe (gets f)
  gets-Safe = Always-gets (NoPromotion admin) (λ w. omega arith)

  modify-Safe : (f : World → World) → ((w : World) → NoPromotion admin w (f w)) → Safe (modify f)
  unfolding Always
  modify-Safe f h w = h w

  -- A bind, and a guard, of this relation.
  next :
      {A B : Type 0} (m : Action A) (k : A → Action B)
      → Safe m
      → ((a : A) → Safe (k a))
      → Safe (m >>= k)
  next = Always-bind (NoPromotion admin) (λ u v w h k. omega arith)

  check-Safe : (c : Bool) (e : Exception) → Safe (raise_if c e)
  check-Safe = Always-check (NoPromotion admin) (λ w. omega arith)

  ranked :
      {B : Type 0} (role : Role) (k : Action B)
      → (leb (role_hierarchy admin.role) (role_hierarchy role) ≡ false → Safe k)
      → Safe (validate_role_change admin role >> k)
  unfolding validate_role_change
  ranked role k h =
      Always-raise_if (NoPromotion admin) (λ w. omega arith)
        (leb (role_hierarchy admin.role) (role_hierarchy role)) _ k h

  required : {A : Type 0} (o : Option A) (e : Exception) → Safe (or_raise o e)
  required = Always-or_raise (NoPromotion admin) (λ w. omega arith)

  change-Safe :
      (id : ℕ) (f : User → User)
      → ((u : User) → ranks_with admin.role (f u) ≡ true → ranks_with admin.role u ≡ true)
      → Safe (Users.find_by_id_and_update id f)
  unfolding Always Users.find_by_id_and_update
  change-Safe id f keep w =
      count_documents-update_one-le (ranks_with admin.role) (user_by_id id) f w.users
        (λ u hit h. keep u h)

  found-Safe :
      (id : ℕ) (f : User → User) (e : Exception)
      → ((u : User) → ranks_with admin.role (f u) ≡ true → ranks_with admin.role u ≡ true)
      → Safe (Users.find_by_id_and_update id f >>= λ u. or_raise u e)
  found-Safe id f e keep = next _ _ (change-Safe id f keep) (λ o. required o e)

  -- An event that is logged, and an answer.
  logged : {B : Type 0} (e : AuditEvent) (b : B) → Safe (log e >> pure b)
  logged e b = next _ _ (log-Safe e) (λ _. pure-Safe _)

  change_user_role-Safe : (id : ℕ) (role : Role) (ip : ℕ) → Safe (change_user_role id role admin ip)
  unfolding change_user_role Users.change_role
  change_user_role-Safe id role ip =
      next _ _
        (check-Safe (not (same_role admin.role Role.super_admin))
          (forbidden "Only SUPER_ADMIN can change user roles"))
        (λ _.
          next _ _ (check-Safe (id == admin.user_id) (forbidden "You cannot change your own role"))
            (λ _. ranked role _ (λ below.
              next _ _
                (found-Safe id (λ u. record u { role = role }) (not_found "User not found")
                  (λ u h. absurd (ground arith)))
                (λ u. logged _ u))))

  revoke-Safe : (id : ℕ) → Safe (Users.revoke_all_tokens id)
  unfolding Always Users.revoke_all_tokens
  revoke-Safe id w = omega arith

  activate_user-Safe : (id ip : ℕ) → Safe (activate_user id admin ip)
  unfolding activate_user Users.activate_user
  activate_user-Safe id ip = next _ _ (found-Safe id _ _ (λ u h. h)) (λ u. logged _ u)

  deactivate_user-Safe : (id ip : ℕ) → Safe (deactivate_user id admin ip)
  unfolding deactivate_user Users.deactivate_user
  deactivate_user-Safe id ip =
      next _ _
        (check-Safe (id == admin.user_id) (forbidden "You cannot deactivate your own account"))
        (λ _.
          next _ _
            (next _ _ (change-Safe id (λ u. record u { is_active = false }) (λ u h. h)) (λ o.
              next _ _ (required o (not_found "User not found"))
                (λ u. next _ _ (revoke-Safe u.id) (λ _. pure-Safe u))))
            (λ u. logged _ u))

  reset_user_password-Safe :
      (env : Env) (id ip generated salt : ℕ)
      → Safe (reset_user_password env id admin ip generated salt)
  unfolding reset_user_password Users.reset_password
  reset_user_password-Safe env id ip generated salt =
      next _ _
        (next _ _ (gets-Safe (λ w. find_one (user_by_id id) w.users)) (λ o.
          next _ _ (required o (not_found "User not found")) (λ u.
            next _ _
              (modify-Safe
                (λ w. record w {
                  users =
                      update_one (user_by_id id) (Users.reset_fields env generated salt) w.users;
                })
                (λ w.
                  count_documents-update_one-le (ranks_with admin.role) (user_by_id id)
                    (Users.reset_fields env generated salt) w.users (λ v hit h. h)))
              (λ _. next _ _ (revoke-Safe u.id) (λ _. pure-Safe generated)))))
        (λ r. logged _ r)

  fresh : Safe new_id
  unfolding Always
  fresh w = omega arith

  create-Safe : (u : User) → ranks_with admin.role u ≡ false → Safe (Users.create_user_document u)
  unfolding Always Users.create_user_document
  create-Safe u below w =
      ground (arith, count_documents-append (ranks_with admin.role) w.users (u ∷ []))

  create_user-Safe :
      (env : Env) (dto : CreateUserDto) (ip generated salt : ℕ)
      → Safe (create_user env dto admin ip generated salt)
  unfolding create_user Users.create_user
  create_user-Safe env dto ip generated salt = ranked (get_or dto.role Role.employee) _ (λ below.
      next _ _
        (next _ _
          (gets-Safe (λ w. find_one (Users.user_by_email (env.to_lower_case dto.email)) w.users))
          (λ e.
            next _ _ (check-Safe (is_some e) (conflict "A user with this email already exists"))
              (λ _. next _ _ fresh (λ id. next _ _ fresh (λ uuid.
                next _ _
                  (create-Safe
                    (Users.new_user dto (env.to_lower_case dto.email)
                      (env.bcrypt_hash (Users.or_text dto.temporary_password generated) salt)
                      admin.user_id id uuid)
                    below)
                  (λ u. pure-Safe (u, Users.or_text dto.temporary_password generated)))))))
        (λ r. logged _ _))

-- One operation of an administrator on accounts, `updateUser` left out.
pub data AdminStep (admin : AuthenticatedUser) : World → World → Type 0 where
  create :
      (env : Env) (dto : CreateUserDto) (ip generated salt : ℕ) (w : World)
      → AdminStep admin w (create_user env dto admin ip generated salt w).1
  activate : (id ip : ℕ) (w : World) → AdminStep admin w (activate_user id admin ip w).1
  deactivate : (id ip : ℕ) (w : World) → AdminStep admin w (deactivate_user id admin ip w).1
  reset :
      (env : Env) (id ip generated salt : ℕ) (w : World)
      → AdminStep admin w (reset_user_password env id admin ip generated salt w).1
  change_role :
      (id : ℕ) (role : Role) (ip : ℕ) (w : World)
      → AdminStep admin w (change_user_role id role admin ip w).1

-- Any number of operations of one administrator, one after another.
pub data AdminRun (admin : AuthenticatedUser) : World → World → Type 0 where
  done : (w : World) → AdminRun admin w w
  then : {w w' w'' : World} → AdminStep admin w w' → AdminRun admin w' w'' → AdminRun admin w w''

AdminStep-NoPromotion :
    {admin : AuthenticatedUser} {w w' : World} → AdminStep admin w w' → NoPromotion admin w w'
unfolding Always
AdminStep-NoPromotion {admin} (AdminStep.create env dto ip g s w) =
    create_user-Safe admin env dto ip g s w
AdminStep-NoPromotion {admin} (AdminStep.activate id ip w) = activate_user-Safe admin id ip w
AdminStep-NoPromotion {admin} (AdminStep.deactivate id ip w) = deactivate_user-Safe admin id ip w
AdminStep-NoPromotion {admin} (AdminStep.reset env id ip g s w) =
    reset_user_password-Safe admin env id ip g s w
AdminStep-NoPromotion {admin} (AdminStep.change_role id role ip w) =
    change_user_role-Safe admin id role ip w

-- Whatever an administrator does by creating, activating, deactivating accounts, resetting
-- passwords and changing roles, in whatever order, the accounts with at least the administrator's
-- rank do not become more.
pub AdminRun-NoPromotion :
    {admin : AuthenticatedUser} {w w' : World} → AdminRun admin w w' → NoPromotion admin w w'
AdminRun-NoPromotion (AdminRun.done w) = omega arith
AdminRun-NoPromotion (AdminRun.then step rest) =
    omega (arith, AdminStep-NoPromotion step, AdminRun-NoPromotion rest)

update_user-found :
    (id : ℕ) (dto : UpdateUserDto) (w : World) (u : User)
    → find_one (user_by_id id) (update_one (user_by_id id) (set_dto dto) w.users) ≡ some u
    → Users.update_user id dto w
      ≡ (ok u, record w { users = update_one (user_by_id id) (set_dto dto) w.users })
unfolding Users.update_user Users.find_by_id_and_update
update_user-found id dto w u found = rw found refl

-- `updateUser` checks no rank: on an account that exists, with a request that names a role, it
-- succeeds and gives the account that role, whoever the administrator is.
pub update_user_promotes :
    (id ip : ℕ) (role : Role) (dto : UpdateUserDto) (admin : AuthenticatedUser) (w : World)
    (u : User)
    → dto.role ≡ some role
    → find_one (user_by_id id) w.users ≡ some u
    → ((update_user id dto admin ip w).0 ≡ ok (set_dto dto u))
      × (find_one (user_by_id id) (update_user id dto admin ip w).1.users ≡ some (set_dto dto u))
      × ((set_dto dto u).role ≡ role)
unfolding update_user log
update_user_promotes id ip role dto admin w u given found =
    let hit = find_one-holds (user_by_id id) w.users u found in
    let changed =
      find_one-update_one (user_by_id id) (set_dto dto) w.users u found (ground arith) in
    let done = update_user-found id dto w (set_dto dto u) changed in
    let answer : update_user id dto admin ip w ≡ _ =
      bind-ok (Users.update_user id dto) (updated dto admin ip) w _ (set_dto dto u) done in
    rw answer (refl, changed, rw given refl)
