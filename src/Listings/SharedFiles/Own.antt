-- ===== src/Listings/SharedFiles/Own.antt =====
-- Whose shares the listings of shares show.
use securevault_backend.Prelude.{
  ℕ, ◌≤◌, Bool, true, Option, none, some, List, [], ◌∷◌, ◌≡◌, refl, arith, ◌==◌, map, get_or,
  or_null, find_one, find_all, count_documents, count_documents-pos, All, All-append, Bool-cases,
  inl, inr,
}
use securevault_backend.Schema.{FileAccess, ShareStatus, same_status, File, AuthenticatedUser}
use securevault_backend.World.{World}
use securevault_backend.Shares.Validation.{by_id}
use securevault_backend.Shares.Runs.{SharesInv}
use securevault_backend.Listings.{Matching}
use securevault_backend.Listings.Readable.{All-take, All-drop, All-newest_first, All-find_all}
use securevault_backend.Listings.SharedFiles.{
  ShareSortField, SortOrder, SharesQuery, slice, insert_by, sort_with, sort_created, sort_shares,
  with_files, sort_items, item_matches, read_again, share_matches, list_matching, list_shares,
  get_shared_with_me, get_shared_by_me,
}

module _ {A : Type 0} (P : A → Type 0) where
  All-insert_by :
      (before : A → A → Bool) (d : A) (es : List A) → P d → All P es → All P (insert_by before d es)
  All-insert_by before d [] h hs = (h, tt)
  All-insert_by before d (e ∷ es) h hs = elim (Bool-cases (before d e)) [
    | inl first ↦ rw first (h, hs)
    | inr later ↦ rw later (hs.0, All-insert_by before d es h hs.1)
  ]

  All-sort_with :
      (order : SortOrder) (before : A → A → Bool) (ds : List A)
      → All P ds
      → All P (sort_with order before ds)
  All-sort_with order before [] h = tt
  All-sort_with SortOrder.asc before (d ∷ ds) h =
      All-insert_by before d _ h.0 (All-sort_with SortOrder.asc before ds h.1)
  All-sort_with SortOrder.desc before (d ∷ ds) h =
      All-insert_by (λ x y. before y x) d _ h.0 (All-sort_with SortOrder.desc before ds h.1)

  All-sort_created : (order : SortOrder) (ds : List A) → All P ds → All P (sort_created order ds)
  All-sort_created SortOrder.asc ds h = h
  All-sort_created SortOrder.desc ds h = All-newest_first P ds h

  All-slice : (q : SharesQuery) (ds : List A) → All P ds → All P (slice q ds)
  All-slice q ds h = All-take P q.limit _ (All-drop P _ ds h)

  All-of_find_all : (p : A → Bool) (ds : List A) → All P ds → All P (find_all p ds)
  All-of_find_all p [] h = tt
  All-of_find_all p (d ∷ ds) h = elim (Bool-cases (p d)) [
    | inl hit ↦ rw hit (h.0, All-of_find_all p ds h.1)
    | inr miss ↦ rw miss (All-of_find_all p ds h.1)
  ]

module _ (P : FileAccess → Type 0) where
  All-sort_shares :
      (field : ShareSortField) (order : SortOrder) (ds : List FileAccess)
      → All P ds
      → All P (sort_shares field order ds)
  All-sort_shares ShareSortField.created_at order ds h = All-sort_created P order ds h
  All-sort_shares ShareSortField.expires_at order ds h = All-sort_with P order _ ds h
  All-sort_shares ShareSortField.file_name order ds h = All-sort_created P order ds h

  All-with_files :
      (files : List File) (ss : List FileAccess)
      → All P ss
      → All (λ (item : FileAccess × File). P item.0) (with_files files ss)
  unfolding with_files
  All-with_files files [] h = tt
  All-with_files files (s ∷ ss) h =
      All-append (λ (item : FileAccess × File). P item.0) _ _
        (pairs (find_all (λ (f : File). f.id == s.file_id) files)) (All-with_files files ss h.1)
    where
      pairs : (fs : List File) → All (λ (item : FileAccess × File). P item.0) (map (λ f. (s, f)) fs)
      pairs [] = tt
      pairs (f ∷ fs) = (h.0, pairs fs)

module _ (matching : Matching) (P : FileAccess × File → Type 0) where
  All-sort_items :
      (field : ShareSortField) (order : SortOrder) (items : List (FileAccess × File))
      → All P items
      → All P (sort_items matching field order items)
  All-sort_items ShareSortField.created_at order items h = All-sort_created P order items h
  All-sort_items ShareSortField.expires_at order items h = All-sort_with P order _ items h
  All-sort_items ShareSortField.file_name order items h = All-sort_with P order _ items h

module _ {A : Type 0} (P Q : A → Type 0) where
  All-imp : (xs : List A) → ((x : A) → P x → Q x) → All P xs → All Q xs
  All-imp [] keep h = tt
  All-imp (x ∷ xs) keep h = (keep x h.0, All-imp xs keep h.1)

  All-both : (xs : List A) → All P xs → All Q xs → All (λ x. P x × Q x) xs
  All-both [] h k = tt
  All-both (x ∷ xs) h k = ((h.0, k.0), All-both xs h.1 k.1)

-- A share that is found under its own identifier
abbrev pub Stored : List FileAccess → FileAccess → Type 0
Stored ds s = find_one (by_id s.id) ds ≡ some s

-- Where identifiers are distinct, every share is found under its own.
All-Stored :
    (ds : List FileAccess) → ((i : ℕ) → count_documents (by_id i) ds ≤ 1) → All (Stored ds) ds
All-Stored [] distinct = tt
All-Stored (d ∷ ds) distinct = (
  ground arith,
  All-imp (Stored ds) (Stored (d ∷ ds)) ds
      (λ s found. elim (Bool-cases (by_id s.id d)) [
        | inr other ↦ rw other found
        | inl same ↦
            let once = distinct s.id in
            let again = count_documents-pos (by_id s.id) (by_id s.id) ds s found (ground arith) in
            absurd (ground (arith, once, again, same))
      ])
      (All-Stored ds (λ i. let once = distinct i in ground (arith, once))),
)

module _ (P : FileAccess → Type 0) (w : World) where
  All-read_again :
      (matching : Matching) (items : List (FileAccess × File))
      → All (λ (item : FileAccess × File). P item.0 × Stored w.shares item.0) items
      → All P (read_again matching w items)
  All-read_again matching [] h = tt
  All-read_again matching (item ∷ items) h =
      let stored = h.0.1 in rw stored (h.0.0, All-read_again matching items h.1)

module _ (matching : Matching) (base : FileAccess → Bool) (q : SharesQuery) (w : World) where
  -- A share that the listing may show: it matches the filter and is stored.
  abbrev Listed : FileAccess → Type 0
  Listed s = (share_matches matching base q s ≡ true) × Stored w.shares s

  abbrev OnListed : FileAccess × File → Type 0
  OnListed item = Listed item.0

  filtered-Listed : SharesInv w → All Listed (find_all (share_matches matching base q) w.shares)
  filtered-Listed inv =
      All-both _ (Stored w.shares) (find_all (share_matches matching base q) w.shares)
        (All-find_all (λ s. share_matches matching base q s ≡ true) (share_matches matching base q)
          w.shares (λ s h. h))
        (All-of_find_all (Stored w.shares) (share_matches matching base q) w.shares
          (All-Stored w.shares inv.distinct))

  list_matching-Listed :
      (search : Option ℕ)
      → SharesInv w
      → All Listed (list_matching matching search (share_matches matching base q) q w).data_of
  list_matching-Listed none inv =
      All-slice Listed q _ (All-sort_shares Listed q.sort_by q.sort_order _ (filtered-Listed inv))
  list_matching-Listed (some text) inv = All-read_again Listed w matching _ (
      All-imp OnListed (λ item. Listed item.0 × Stored w.shares item.0) _ (λ item h. (h, h.1))
        (All-slice OnListed q _ (
          All-sort_items matching OnListed q.sort_by q.sort_order _ (
            All-of_find_all OnListed (item_matches matching text) _
              (All-with_files Listed w.files _ (filtered-Listed inv))))))

same_status_eq : (a b : ShareStatus) → same_status a b ≡ true → a ≡ b
same_status_eq ShareStatus.active ShareStatus.active h = refl
same_status_eq ShareStatus.expired ShareStatus.expired h = refl
same_status_eq ShareStatus.revoked ShareStatus.revoked h = refl
same_status_eq ShareStatus.active ShareStatus.expired h = absurd cc
same_status_eq ShareStatus.active ShareStatus.revoked h = absurd cc
same_status_eq ShareStatus.expired ShareStatus.active h = absurd cc
same_status_eq ShareStatus.expired ShareStatus.revoked h = absurd cc
same_status_eq ShareStatus.revoked ShareStatus.active h = absurd cc
same_status_eq ShareStatus.revoked ShareStatus.expired h = absurd cc

-- A share with a user, or by one, of the status asked for, which is active where none is
abbrev pub OwnShare :
    (FileAccess → ℕ) → SharesQuery → AuthenticatedUser → World → FileAccess → Type 0
OwnShare party q user w s =
    (party s ≡ user.user_id)
    × (s.status ≡ get_or q.status ShareStatus.active)
    × (find_one (by_id s.id) w.shares ≡ some s)

-- Where the identifiers of shares are distinct, whatever is searched for and however it is sorted,
-- every share that a user is shown as shared with them, or by them, is such a stored share, and has
-- the status asked for, which is ACTIVE where none is.
pub shared_listings-Own :
    (matching : Matching) (q : SharesQuery) (user : AuthenticatedUser) (w : World)
    → SharesInv w
    → All
        (OwnShare (λ s. s.shared_with_user_id) q user w)
        (get_shared_with_me matching q user w).data_of
      × All (OwnShare (λ s. s.owner_id) q user w) (get_shared_by_me matching q user w).data_of
unfolding get_shared_with_me get_shared_by_me list_shares
shared_listings-Own matching q user w inv =
    (own (λ s. s.shared_with_user_id), own (λ s. s.owner_id))
  where
    own :
        (party : FileAccess → ℕ)
        → All
            (OwnShare party q user w)
            (list_shares matching (λ s. party s == user.user_id) q w).data_of
    own party =
        let base : FileAccess → Bool = λ s. party s == user.user_id in
        All-imp (Listed matching base q w) (OwnShare party q user w) _
          (λ s h.
            let matches = h.0 in
            (
              ground (arith, matches),
              same_status_eq s.status (get_or q.status ShareStatus.active)
                  (ground (arith, matches)),
              h.1,
            ))
          (list_matching-Listed matching base q w (or_null q.search) inv)
