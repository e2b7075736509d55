-- ===== src/Vault/Tests.antt =====
-- A server that answers the second attempt.
use securevault_backend.Prelude.{ℕ, ◌≤◌, ◌<◌, true, false, ◌==◌, ◌≡◌, ◌↔◌}
use securevault_backend.Vault.Connection.{initialize, initialize-Connects}

initialize-Connects_example :
    ((initialize (λ n. n == 2) 3 1000).attempts ≤ 3)
    × (((initialize (λ n. n == 2) 3 1000).initialized ≡ true)
        ↔ ((n : ℕ) × (1 ≤ n) × (n ≤ 3) × ((n == 2) ≡ true)))
    × ((n : ℕ) → 1 ≤ n → n < (initialize (λ n. n == 2) 3 1000).attempts → (n == 2) ≡ false)
initialize-Connects_example = initialize-Connects (λ n. n == 2) 3 1000
