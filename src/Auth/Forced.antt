-- ===== src/Auth/Forced.antt =====
-- The forced change of a password: `forceChangePassword` (src/modules/auth/auth.service.ts).
use securevault_backend.Auth.Passwords.{force_change_password}
use securevault_backend.Prelude.{
  ℕ, ◌≤◌, Bool, true, not, Option, none, ◌≡◌, refl, arith, ◌==◌, find_one, count_documents,
  count_documents-update_many-le, count_documents_mono, count_documents_of_none,
  find_one_of_count_zero,
}
use securevault_backend.Schema.{User}
use securevault_backend.World.{
  World, Action, ok, throw, unauthorized, forbidden, type_error, Exception, raise_if, or_raise,
  ◌>>=◌,
}
use securevault_backend.World.Laws.{Always, Always-bind, Always-check, Always-or_raise}
use securevault_backend.Env.{Env}
use securevault_backend.Users.{
  find_by_id, update_password, revoke_all_tokens, find_by_id_and_update,
}
use securevault_backend.Users.Lockout.{at_time}
use securevault_backend.Auth.{Tokens, generate_tokens, live_token, refresh_tokens}
use securevault_backend.Auth.Rotation.{has_hash}

-- No document of a token is added.
abbrev NoneStored : World → World → Type 0
NoneStored w w' =
    (hash : ℕ)
    → count_documents (has_hash hash) w'.refresh_tokens
      ≤ count_documents (has_hash hash) w.refresh_tokens

abbrev Quiet : {A : Type 0} → Action A → Type 0
Quiet m = Always NoneStored m

next :
    {A B : Type 0} (m : Action A) (k : A → Action B)
    → Quiet m
    → ((a : A) → Quiet (k a))
    → Quiet (m >>= k)
next = Always-bind NoneStored (λ u v w h k hash. omega (arith, h hash, k hash))

required : {A : Type 0} (o : Option A) (e : Exception) → Quiet (or_raise o e)
required = Always-or_raise NoneStored (λ w hash. omega arith)

check-Quiet : (c : Bool) (e : Exception) → Quiet (raise_if c e)
check-Quiet = Always-check NoneStored (λ w hash. omega arith)

find_by_id-Quiet : (id : ℕ) → Quiet (find_by_id id)
unfolding Always find_by_id
find_by_id-Quiet id w hash = omega arith

update_password-Quiet : (id hashed : ℕ) → Quiet (update_password id hashed)
unfolding Always update_password find_by_id_and_update
update_password-Quiet id hashed w hash = omega arith

revoke_all_tokens-Quiet : (id : ℕ) → Quiet (revoke_all_tokens id)
unfolding Always revoke_all_tokens
revoke_all_tokens-Quiet id w hash =
    count_documents-update_many-le (has_hash hash) (λ t. t.user_id == id)
      (λ t. record t { is_revoked = true }) w.refresh_tokens (λ t hit h. h)

generate_tokens-Quiet : (env : Env) (u : User) → Quiet (generate_tokens env u)
unfolding Always generate_tokens
generate_tokens-Quiet env u w hash = omega arith

force_change_password-Quiet :
    (env : Env) (user_id old new salt : ℕ) → Quiet (force_change_password env user_id old new salt)
unfolding force_change_password
force_change_password-Quiet env user_id old new salt = next _ _ (find_by_id-Quiet user_id) (λ found.
    next _ _ (required found (unauthorized "User not found")) (λ u.
      next _ _
        (check-Quiet (not u.must_change_password) (forbidden "Password change is not required"))
        (λ _.
          next _ _
            (check-Quiet (not (env.bcrypt_compare old u.password_hash))
              (unauthorized "Temporary password is incorrect"))
            (λ _. next _ _ (update_password-Quiet user_id (env.bcrypt_hash new salt)) (λ _.
              next _ _ (revoke_all_tokens-Quiet u.id) (λ _.
                next _ _ (find_by_id-Quiet user_id) (λ updated.
                  next _ _ (required updated type_error) (λ v. generate_tokens-Quiet env v))))))))

-- A forced change of the password does not store the refresh token that it returns: where no
-- document had its hash before, a refresh with it is refused as long as no other operation has
-- stored a token of the same text.
pub force_change_password_unusable :
    (env : Env) (user_id old new salt : ℕ) (w : World) (r : Tokens)
    → (force_change_password env user_id old new salt w).0 ≡ ok r
    → find_one (has_hash (env.sha256 r.refresh_token)) w.refresh_tokens ≡ none
    → (later ip agent : ℕ)
    → (refresh_tokens env r.refresh_token ip agent
        (at_time later (force_change_password env user_id old new salt w).1)).0
      ≡ throw (unauthorized "Invalid or revoked refresh token")
unfolding refresh_tokens Always
force_change_password_unusable env user_id old new salt w r returned fresh later ip agent =
    let hash = env.sha256 r.refresh_token in
    let w' = (force_change_password env user_id old new salt w).1 in
    let kept = force_change_password-Quiet env user_id old new salt w hash in
    let before = count_documents_of_none (has_hash hash) w.refresh_tokens fresh in
    let live =
      count_documents_mono (live_token hash) (has_hash hash) w'.refresh_tokens
        (λ d h. ground arith) in
    let gone = find_one_of_count_zero (live_token hash) w'.refresh_tokens (omega arith) in
    rw gone refl
