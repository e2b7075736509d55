-- ===== src/Admin/Tests.antt =====
-- The theorems on the ranks that administrators can give, at concrete accounts.
use securevault_backend.Prelude.{none, some, ◌≡◌, refl, find_one}
use securevault_backend.Schema.{Role, AuthenticatedUser}
use securevault_backend.World.{World, ok, throw, not_found}
use securevault_backend.Users.{CreateUserDto, UpdateUserDto, user_by_id, set_dto}
use securevault_backend.Users.Examples.{plain_env, alice, office}
use securevault_backend.Admin.Desk.{get_user_by_id}
use securevault_backend.Admin.{create_user, update_user, activate_user}
use securevault_backend.Admin.Escalation.{
  NoPromotion, AdminStep, AdminRun, AdminRun-NoPromotion, update_user_promotes,
}

abbrev alice_admin : AuthenticatedUser
alice_admin = record { user_id = 1; uuid = 11; email = 21; role = Role.admin }

abbrev new_manager : CreateUserDto
new_manager = record {
  email = 70;
  first_name = 71;
  last_name = 72;
  role = some Role.manager;
  department = none;
  job_title = none;
  temporary_password = none;
}

abbrev crown : UpdateUserDto
crown = record {
  first_name = none;
  last_name = none;
  role = some Role.super_admin;
  department = none;
  job_title = none;
  is_active = none;
}

abbrev hired : World
hired = (create_user plain_env new_manager alice_admin 9 80 5 office).1

AdminRun-NoPromotion_example :
    NoPromotion alice_admin office (activate_user 3 alice_admin 9 hired).1
AdminRun-NoPromotion_example = AdminRun-NoPromotion (
    AdminRun.then (AdminStep.create plain_env new_manager 9 80 5 office)
      (AdminRun.then (AdminStep.activate 3 9 hired) (AdminRun.done _)))

-- An administrator makes their own account a super administrator's.
update_user_promotes_example :
    ((update_user 1 crown alice_admin 9 office).0 ≡ ok (set_dto crown alice))
    × (find_one (user_by_id 1) (update_user 1 crown alice_admin 9 office).1.users
        ≡ some (set_dto crown alice))
    × ((set_dto crown alice).role ≡ Role.super_admin)
update_user_promotes_example =
    update_user_promotes 1 9 Role.super_admin crown alice_admin office alice refl refl

unknown_account : get_user_by_id 999 office ≡ (throw (not_found "User not found"), office)
unfolding get_user_by_id securevault_backend.Users.find_by_id
unknown_account = refl
