-- ===== src/Vault/Connection.antt =====
-- The connection to Vault with its retries: `initialize` (src/modules/vault/vault.service.ts).
use securevault_backend.Prelude.{
  ℕ, zero, suc, ◌+◌, ◌-◌, ◌*◌, ◌≤◌, ◌<◌, Bool, true, false, ◌≡◌, ◌↔◌, arith, ltb, ◌==◌,
  if◌then◌else◌, Bool-cases, inl, inr,
}

-- What the loop leaves: whether the client is initialized, the attempts made and the milliseconds
-- waited between them.
pub record Connection : Type 0 where
  pub initialized : Bool
  pub attempts : ℕ
  pub waited : ℕ

module _ (answers : ℕ → Bool) (retry_attempts retry_delay_ms : ℕ) where
  -- The loop from an attempt on, with the attempts that are left.
  unfoldable pub connect_from : ℕ → ℕ → ℕ → Connection
  connect_from zero attempt waited = record {
    initialized = false;
    attempts = attempt - 1;
    waited = waited;
  }
  connect_from (suc left) attempt waited =
      let pause = if ltb attempt retry_attempts then retry_delay_ms * attempt else 0 in
      let rest = connect_from left (attempt + 1) (waited + pause) in
      if answers attempt
      then record { initialized = true; attempts = attempt; waited = waited }
      else rest

  -- `initialize`, of a client that is not initialized; `answers n` is that attempt `n` gets an
  -- answer to its health check.
  unfoldable pub initialize : Connection
  unfolding connect_from
  initialize = connect_from retry_attempts 1 0

  pub record ConnectsFrom (first : ℕ) (waited : ℕ) (c : Connection) : Type 0 where
    pub bounded : c.attempts ≤ retry_attempts
    pub answered : c.initialized ≡ true → answers c.attempts ≡ true
    pub started : c.initialized ≡ true → first ≤ c.attempts
    pub earlier : (n : ℕ) → first ≤ n → n < c.attempts → answers n ≡ false
    pub exhausted :
        c.initialized ≡ false → (n : ℕ) → first ≤ n → n ≤ retry_attempts → answers n ≡ false

  silent_from :
      (attempt n : ℕ) (P : ℕ → Type 0)
      → answers attempt ≡ false
      → attempt ≤ n
      → P n
      → ((m : ℕ) → attempt + 1 ≤ m → P m → answers m ≡ false)
      → answers n ≡ false
  silent_from attempt n P miss low holds later = elim (Bool-cases (n == attempt)) [
    | inl same ↦ let e : n ≡ attempt = ground arith in rw e miss
    | inr other ↦ later n (ground arith) holds
  ]

  connect_from-Connects :
      (left attempt waited : ℕ)
      → attempt + left ≡ retry_attempts + 1
      → 0 < attempt
      → ConnectsFrom attempt waited (connect_from left attempt waited)
  unfolding connect_from
  connect_from-Connects zero attempt waited total positive = record {
    bounded = omega arith;
    answered = λ h. absurd cc;
    started = λ h. absurd cc;
    earlier = λ n low high. absurd (omega arith);
    exhausted = λ h n low high. absurd (omega arith);
  }
  connect_from-Connects (suc left) attempt waited total positive =
      let pause = if ltb attempt retry_attempts then retry_delay_ms * attempt else 0 in
      let after = connect_from left (attempt + 1) (waited + pause) in
      let rest =
        connect_from-Connects left (attempt + 1) (waited + pause) (omega arith) (omega arith) in
      elim (Bool-cases (answers attempt)) [
        | inl hit ↦ rw hit (record {
          bounded = omega arith;
          answered = λ h. hit;
          started = λ h. omega arith;
          earlier = λ n low high. absurd (omega arith);
          exhausted = λ h. absurd cc;
        })
        | inr miss ↦ rw miss (record {
          bounded = rest.bounded;
          answered = rest.answered;
          started = λ h. let low = rest.started h in omega arith;
          earlier = λ n low high.
              silent_from attempt n (λ m. m < after.attempts) miss low high rest.earlier;
          exhausted = λ h n low high.
              silent_from attempt n (λ m. m ≤ retry_attempts) miss low high (rest.exhausted h);
        })
      ]

  -- The retries end within the configured attempts: the client is initialized exactly if one of
  -- them is answered, and the first one answered is the last one made.
  pub initialize-Connects :
      (initialize.attempts ≤ retry_attempts)
      × ((initialize.initialized ≡ true)
          ↔ ((n : ℕ) × (1 ≤ n) × (n ≤ retry_attempts) × (answers n ≡ true)))
      × ((n : ℕ) → 1 ≤ n → n < initialize.attempts → answers n ≡ false)
  unfolding initialize
  initialize-Connects =
      let c = connect_from-Connects retry_attempts 1 0 (omega arith) (omega arith) in
      (
        c.bounded,
        (
          λ h. (initialize.attempts, c.started h, c.bounded, c.answered h),
          λ (n, low, high, hit). elim (Bool-cases initialize.initialized) [
            | inl good ↦ good
            | inr bad ↦ absurd (let silent = c.exhausted bad n low high in cc)
          ],
        ),
        c.earlier,
      )
