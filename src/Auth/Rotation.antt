-- ===== src/Auth/Rotation.antt =====
-- The rotation of refresh tokens: `refreshTokens` (src/modules/auth/auth.service.ts).
use securevault_backend.Prelude.{
  ℕ, ◌+◌, ◌/◌, ◌≤◌, Bool, true, not, Option, none, some, List, [], ◌∷◌, ◌++◌, ◌≡◌, ◌≢◌, refl, ◌∙◌,
  sym, ap, inl, inr, arith, ◌==◌, ltb, find_one, find_one-holds, update_one, count_documents,
  count_documents_mono, count_documents-append, count_documents-update_found, count_documents-pos,
  count_documents_of_none, find_one_of_count, find_one_of_count_zero, Bool-cases, Option-cases,
}
use securevault_backend.Schema.{User, RefreshToken}
use securevault_backend.World.{World, ok, throw, unauthorized, pure, ◌>>=◌, ◌>>◌}
use securevault_backend.World.Laws.{bind-ok, raise_if-passes}
use securevault_backend.Env.{Env, TokenType}
use securevault_backend.Users.{find_by_id}
use securevault_backend.Users.Lockout.{at_time}
use securevault_backend.Auth.{
  Tokens, payload_of, generate_tokens, create_refresh_token, new_refresh_token, store_refresh_token,
  issue, live_token, renew_for, revoke_stored, rotate, refresh_tokens,
}

abbrev pub has_hash : ℕ → RefreshToken → Bool
has_hash hash t = t.token == hash

abbrev pub has_id : ℕ → RefreshToken → Bool
has_id id t = t.id == id

-- The indexes of the collection: no two documents share a token or an identifier.
abbrev pub Indexed : List RefreshToken → Type 0
Indexed ts =
    ((hash : ℕ) → count_documents (has_hash hash) ts ≤ 1)
    × ((id : ℕ) → count_documents (has_id id) ts ≤ 1)

abbrev pub revoked : RefreshToken → RefreshToken
revoked t = record t { is_revoked = true }

-- The tokens are `before` with one more, of a text that none of them has.
abbrev pub Appends : List RefreshToken → List RefreshToken → Type 0
Appends before after =
    (t : RefreshToken) × (after ≡ before ++ t ∷ []) × (find_one (has_hash t.token) before ≡ none)

-- The document that `issue` stores.
abbrev pub stored_by : Env → User → ℕ → ℕ → World → RefreshToken
stored_by env u ip agent w =
    new_refresh_token env (env.sign (payload_of TokenType.refresh u) (w.now / 1000)) u.id agent ip
      w.next_id w.now

store-fresh :
    (env : Env) (token user_id ip agent : ℕ) (w : World)
    → find_one (has_hash (env.sha256 token)) w.refresh_tokens ≡ none
    → store_refresh_token env token user_id agent ip w ≡ (
      ok tt,
      record w {
        refresh_tokens =
            w.refresh_tokens ++ new_refresh_token env token user_id agent ip w.next_id w.now ∷ [];
        next_id = w.next_id + 1;
      },
    )
unfolding store_refresh_token create_refresh_token
store-fresh env token user_id ip agent w fresh = rw fresh refl

-- The tokens that are generated for an account in a world.
abbrev pub tokens_of : Env → User → World → Tokens
tokens_of env u w = record {
  access_token = env.sign (payload_of TokenType.access u) (w.now / 1000);
  refresh_token = env.sign (payload_of TokenType.refresh u) (w.now / 1000);
}

pub issue-fresh :
    (env : Env) (u : User) (ip agent : ℕ) (w : World)
    → find_one (has_hash (stored_by env u ip agent w).token) w.refresh_tokens ≡ none
    → issue env u ip agent w ≡ (
      ok (tokens_of env u w),
      record w {
        refresh_tokens = w.refresh_tokens ++ stored_by env u ip agent w ∷ [];
        next_id = w.next_id + 1;
      },
    )
unfolding issue generate_tokens
issue-fresh env u ip agent w fresh =
    let tokens = tokens_of env u w in
    bind-ok (store_refresh_token env tokens.refresh_token u.id agent ip) (λ _. pure tokens) w _ tt
      (store-fresh env tokens.refresh_token u.id ip agent w fresh)

issue-clash :
    (env : Env) (u : User) (ip agent : ℕ) (w : World) (r : Tokens) (t : RefreshToken)
    → find_one (has_hash (stored_by env u ip agent w).token) w.refresh_tokens ≡ some t
    → (issue env u ip agent w).0 ≢ ok r
unfolding issue generate_tokens store_refresh_token create_refresh_token
issue-clash env u ip agent w r t clash h = let wrong = rw clash at h in cc

issue-Appends :
    (env : Env) (u : User) (ip agent : ℕ) (w : World) (r : Tokens)
    → (issue env u ip agent w).0 ≡ ok r
    → Appends w.refresh_tokens (issue env u ip agent w).1.refresh_tokens
issue-Appends env u ip agent w r h =
    elim (Option-cases (find_one (has_hash (stored_by env u ip agent w).token) w.refresh_tokens)) [
      | inr (t, clash) ↦ absurd (issue-clash env u ip agent w r t clash h)
      | inl fresh ↦ (
        stored_by env u ip agent w,
        ap (λ p. p.1.refresh_tokens) (issue-fresh env u ip agent w fresh),
        fresh,
      )
    ]

renew_for-Appends :
    (env : Env) (ip agent : ℕ) (owner : Option User) (w : World) (r : Tokens)
    → (renew_for env ip agent owner w).0 ≡ ok r
    → Appends w.refresh_tokens (renew_for env ip agent owner w).1.refresh_tokens
renew_for-Appends env ip agent none w r h = absurd cc
renew_for-Appends env ip agent (some u) w r h = elim (Bool-cases (not u.is_active)) [
  | inl idle ↦ absurd (let wrong = rw idle at h in cc)
  | inr active ↦
      let step =
        raise_if-passes (not u.is_active) (unauthorized "User not found or inactive")
          (issue env u ip agent) w active in
      rw step (issue-Appends env u ip agent w r (sym (ap (λ p. p.0) step) ∙ h))
]

rotate-Appends :
    (env : Env) (ip agent : ℕ) (stored : RefreshToken) (w : World) (r : Tokens)
    → (rotate env ip agent stored w).0 ≡ ok r
    → Appends
        (update_one (has_id stored.id) revoked w.refresh_tokens)
        (rotate env ip agent stored w).1.refresh_tokens
unfolding find_by_id
rotate-Appends env ip agent stored w r h = elim (Bool-cases (ltb stored.expires_at w.now)) [
  | inl late ↦ absurd (let wrong = rw late at h in cc)
  | inr in_time ↦
      let step =
        raise_if-passes (ltb stored.expires_at w.now) (unauthorized "Refresh token expired")
          (revoke_stored stored.id >> (find_by_id stored.user_id >>= renew_for env ip agent)) w
          in_time in
      rw step (renew_for-Appends env ip agent _ _ r (sym (ap (λ p. p.0) step) ∙ h))
]

-- After the rotation of a stored token, no usable token has its text.
spent :
    (hash : ℕ) (ts after : List RefreshToken) (stored : RefreshToken)
    → Indexed ts
    → find_one (live_token hash) ts ≡ some stored
    → Appends (update_one (has_id stored.id) revoked ts) after
    → find_one (live_token hash) after ≡ none
spent hash ts after stored (hashes, ids) found (t, appended, fresh) =
    let live = find_one-holds (live_token hash) ts stored found in
    let by_id =
      find_one_of_count (live_token hash) (has_id stored.id) ts stored found (ground arith)
        (ids stored.id) in
    let spends =
      count_documents-update_found (live_token hash) (has_id stored.id) revoked ts stored by_id in
    let stays =
      count_documents-update_found (has_hash hash) (has_id stored.id) revoked ts stored by_id in
    let most = count_documents_mono (live_token hash) (has_hash hash) ts (λ d h. ground arith) in
    let one = hashes hash in
    let is_there =
      count_documents-pos (has_id stored.id) (has_hash hash) ts stored by_id (ground arith) in
    let others =
      count_documents_of_none (has_hash t.token) (update_one (has_id stored.id) revoked ts) fresh in
    let more =
      count_documents-append (live_token hash) (update_one (has_id stored.id) revoked ts)
        (t ∷ []) in
    rw appended (find_one_of_count_zero (live_token hash) _ (ground arith))

-- A refresh token is accepted once: after a refresh that returned new tokens, every later refresh
-- with the same token is refused, where the collection's indexes held before.
pub refresh_tokens_once :
    (env : Env) (token ip agent : ℕ) (w : World) (r : Tokens)
    → Indexed w.refresh_tokens
    → (refresh_tokens env token ip agent w).0 ≡ ok r
    → (later ip' agent' : ℕ)
    → (refresh_tokens env token ip' agent'
        (at_time later (refresh_tokens env token ip agent w).1)).0
      ≡ throw (unauthorized "Invalid or revoked refresh token")
unfolding refresh_tokens
refresh_tokens_once env token ip agent w r indexed returned later ip' agent' =
    elim (Option-cases (find_one (live_token (env.sha256 token)) w.refresh_tokens)) [
      | inl missing ↦ absurd (let wrong = rw missing at returned in cc)
      | inr (stored, found) ↦
          let here : (rotate env ip agent stored w).0 ≡ ok r = rw found at returned in
          let gone =
            spent (env.sha256 token) w.refresh_tokens
              (rotate env ip agent stored w).1.refresh_tokens stored indexed found
              (rotate-Appends env ip agent stored w r here) in
          rw (found, gone) refl
    ]
