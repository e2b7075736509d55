-- ===== src/Shares/Change.antt =====
-- What the operations on shares (src/modules/shares/services) do to the collection, as one
-- relation, and the invariant on identifiers and active shares.
use securevault_backend.Prelude.{
  ℕ, ◌+◌, ◌≤◌, ◌<◌, Bool, true, ◌&&◌, none, some, List, [], ◌∷◌, ◌++◌, ◌≡◌, refl, ◌≢◌, arith, ◌==◌,
  All, All-append, All-mono, find_one, update_one, update_many, count_documents, update_one-All,
  update_many-All, update_found-All, count_documents-append, count_documents-update_one-le,
  count_documents-update_many-le, count_documents-update_found-le, count_documents_of_none,
}
use securevault_backend.Schema.{ShareStatus, same_status, FileAccess}
use securevault_backend.Shares.Validation.{by_id, active_for, set_status, overdue, after_download}

-- From the shares `ds` and the next identifier `n` to `ds'` and `n'`, without counting a download.
pub data Quiet : List FileAccess → ℕ → List FileAccess → ℕ → Type 0 where
  keep : {ds : List FileAccess} {n n' : ℕ} → n ≤ n' → Quiet ds n ds n'
  close :
      {ds : List FileAccess} {n : ℕ} (i : ℕ) (status : ShareStatus)
      → status ≢ ShareStatus.active
      → Quiet ds n (update_one (by_id i) (set_status status) ds) n
  close_overdue :
      {ds : List FileAccess} {n : ℕ} (now : ℕ)
      → Quiet ds n (update_many (overdue now) (set_status ShareStatus.expired) ds) n
  add :
      {ds : List FileAccess} {n : ℕ} (s : FileAccess)
      → s.id ≡ n
      → s.download_count ≡ 0
      → find_one (active_for s.file_id s.shared_with_user_id) ds ≡ none
      → Quiet ds n (ds ++ s ∷ []) (n + 1)

pub data Change : List FileAccess → ℕ → List FileAccess → ℕ → Type 0 where
  quiet : {ds ds' : List FileAccess} {n n' : ℕ} → Quiet ds n ds' n' → Change ds n ds' n'
  download :
      {ds : List FileAccess} {n : ℕ} (i : ℕ) (s : FileAccess)
      → find_one (by_id i) ds ≡ some s
      → Change ds n (update_one (by_id i) (λ _. after_download s) ds) n

pub record Inv (ds : List FileAccess) (n : ℕ) : Type 0 where
  pub fresh : All (λ s. s.id < n) ds
  pub distinct : (i : ℕ) → count_documents (by_id i) ds ≤ 1
  pub single : (f u : ℕ) → count_documents (active_for f u) ds ≤ 1

-- The share with identifier `i` is active.
abbrev pub active_id : ℕ → FileAccess → Bool
active_id i s = s.id == i && same_status s.status ShareStatus.active

fresh_count :
    (ds : List FileAccess) (n : ℕ) → All (λ s. s.id < n) ds → count_documents (by_id n) ds ≡ 0
fresh_count [] n h = refl
fresh_count (d ∷ ds) n h = ground (arith, fresh_count ds n h.1)

-- A test that no closing, and no download, makes true of a document anew.
record IsStable (q : FileAccess → Bool) : Type 0 where
  on_close :
      (st : ShareStatus) (d : FileAccess)
      → st ≢ ShareStatus.active
      → q (set_status st d) ≡ true
      → q d ≡ true
  on_download : (d : FileAccess) → q (after_download d) ≡ true → q d ≡ true

module _ (q : FileAccess → Bool) (stable : IsStable q) (k : ℕ) where
  -- Such a count stays WithinLimit its bound, where an addition does.
  count-Change :
      {ds ds' : List FileAccess} {n n' : ℕ}
      → Change ds n ds' n'
      → ((s : FileAccess)
          → s.id ≡ n
          → find_one (active_for s.file_id s.shared_with_user_id) ds ≡ none
          → q s ≡ true
          → count_documents q ds + 1 ≤ k)
      → count_documents q ds ≤ k
      → count_documents q ds' ≤ k
  count-Change (quiet (keep h)) new le = le
  count-Change (quiet (close {ds} i st h)) new le = omega (
    arith,
    count_documents-update_one-le q (by_id i) (set_status st) ds
        (λ d _ e. stable.on_close st d h e),
  )
  count-Change (quiet (close_overdue {ds} now)) new le = omega (
    arith,
    count_documents-update_many-le q (overdue now) (set_status ShareStatus.expired) ds
        (λ d _ e. stable.on_close ShareStatus.expired d (ground arith) e),
  )
  count-Change (quiet (add {ds} s id zero_count none_active)) new le =
      ground (arith, count_documents-append q ds (s ∷ []), new s id none_active)
  count-Change (download {ds} i s found) new le = omega (
    arith,
    count_documents-update_found-le q (by_id i) (λ _. after_download s) ds s found
        (stable.on_download s),
  )

by_id-IsStable : (i : ℕ) → IsStable (by_id i)
by_id-IsStable i = record { on_close = λ st d h e. e; on_download = λ d e. e }

active_for-IsStable : (f u : ℕ) → IsStable (active_for f u)
active_for-IsStable f u = record {
  on_close = λ st d h e. ground arith;
  on_download = λ d e. ground arith;
}

active_id-IsStable : (i : ℕ) → IsStable (active_id i)
active_id-IsStable i = record {
  on_close = λ st d h e. ground arith;
  on_download = λ d e. ground arith;
}

fresh-Change :
    {ds ds' : List FileAccess} {n n' : ℕ}
    → Change ds n ds' n'
    → All (λ s. s.id < n) ds
    → All (λ s. s.id < n') ds'
fresh-Change (quiet (keep {ds} h)) a = All-mono ds (λ s e. omega arith) a
fresh-Change (quiet (close {ds} i st h)) a = update_one-All (λ s. s.id < _) _ _ ds (λ d _ e. e) a
fresh-Change (quiet (close_overdue {ds} now)) a =
    update_many-All (λ s. s.id < _) _ _ ds (λ d _ e. e) a
fresh-Change (quiet (add {ds} {n} s id zero_count none_active)) a =
    All-append (λ s. s.id < n + 1) ds (s ∷ []) (All-mono ds (λ t e. omega arith) a)
      (omega arith, tt)
fresh-Change (download {ds} i s found) a =
    update_found-All (λ s. s.id < _) (by_id i) _ ds s found (λ e. e) a

-- Every change keeps the invariant.
pub Change-Inv : {ds ds' : List FileAccess} {n n' : ℕ} → Change ds n ds' n' → Inv ds n → Inv ds' n'
Change-Inv {ds} {n} c inv = record {
  fresh = fresh-Change c inv.fresh;
  distinct = λ i.
      count-Change (by_id i) (by_id-IsStable i) 1 c
        (λ s id _ hit.
          let same : i ≡ n = ground arith in rw same (omega (arith, fresh_count ds n inv.fresh)))
        (inv.distinct i);
  single = λ f u.
      count-Change (active_for f u) (active_for-IsStable f u) 1 c
        (λ s _ free hit.
          let same_file : s.file_id ≡ f = ground arith in
          let same_user : s.shared_with_user_id ≡ u = ground arith in
          let none_for : find_one (active_for f u) ds ≡ none = rw (same_file, same_user) at free in
          omega (arith, count_documents_of_none (active_for f u) ds none_for))
        (inv.single f u);
}

-- A share that is not active is not activated by any change.
pub Change-closed :
    {ds ds' : List FileAccess} {n n' : ℕ} (i : ℕ)
    → Change ds n ds' n'
    → i < n
    → count_documents (active_id i) ds ≡ 0
    → count_documents (active_id i) ds' ≡ 0
Change-closed i c old closed = omega (
  arith,
  count-Change (active_id i) (active_id-IsStable i) 0 c (λ s id _ hit. absurd (ground arith))
      (omega arith),
)

pub Change-le : {ds ds' : List FileAccess} {n n' : ℕ} → Change ds n ds' n' → n ≤ n'
Change-le (quiet (keep h)) = h
Change-le (quiet (close i st h)) = omega arith
Change-le (quiet (close_overdue now)) = omega arith
Change-le (quiet (add s id zero_count free)) = omega arith
Change-le (download i s found) = omega arith
