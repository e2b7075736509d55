-- ===== src/Listings/SharedFiles.antt =====
-- The listings of shares of src/modules/shares/services/share.service.ts: `getSharedWithMe`,
-- `getSharedByMe` and `listShares`, up to the form of the response. Documents with equal sort keys,
-- whose order the database leaves open, keep the order of their creation.
pub mod Own
use securevault_backend.Prelude.{
  ℕ, ◌-◌, ◌*◌, Bool, true, false, ◌&&◌, not, Option, none, some, List, [], ◌∷◌, ◌++◌, ◌==◌, leb,
  ltb, length, map, get_or, or_null, take, drop, find_one, find_all, count_documents, if◌then◌else◌,
}
use securevault_backend.Schema.{FileAccess, ShareStatus, same_status, File, AuthenticatedUser}
use securevault_backend.World.{World}
use securevault_backend.Shares.Validation.{by_id}
use securevault_backend.Listings.{Page, pages_of, newest_first, Matching, found_by}

pub data ShareSortField : Type 0 where
  created_at expires_at file_name : ShareSortField

pub data SortOrder : Type 0 where
  asc desc : SortOrder

pub record SharesQuery : Type 0 where
  pub page : ℕ
  pub limit : ℕ
  pub status : Option ShareStatus
  pub sort_by : ShareSortField
  pub sort_order : SortOrder
  pub search : Option ℕ

-- The page of sorted documents out of a total
abbrev pub page_of : {A : Type 0} → SharesQuery → ℕ → List A → Page A
page_of q total ds = record {
  data_of = ds;
  total = total;
  page = q.page;
  limit = q.limit;
  total_pages = pages_of total q.limit;
  has_next_page = ltb q.page (pages_of total q.limit);
  has_previous_page = ltb 1 q.page;
}

-- `skip` and `limit`
abbrev pub slice : {A : Type 0} → SharesQuery → List A → List A
slice q ds = take q.limit (drop ((q.page - 1) * q.limit) ds)

module _ {A : Type 0} where
  abbrev pub insert_by : (A → A → Bool) → A → List A → List A
  insert_by before d [] = d ∷ []
  insert_by before d (e ∷ es) =
      let rest = insert_by before d es in if before d e then d ∷ e ∷ es else e ∷ rest

  -- `$sort` by a key, in one of the two directions
  abbrev pub sort_with : SortOrder → (A → A → Bool) → List A → List A
  sort_with order before [] = []
  sort_with SortOrder.asc before (d ∷ ds) = insert_by before d (sort_with SortOrder.asc before ds)
  sort_with SortOrder.desc before (d ∷ ds) =
      insert_by (λ x y. before y x) d (sort_with SortOrder.desc before ds)

  -- The order of creation is that of the collection.
  abbrev pub sort_created : SortOrder → List A → List A
  sort_created SortOrder.asc ds = ds
  sort_created SortOrder.desc ds = newest_first ds

  -- The documents that were found
  abbrev pub present : List (Option A) → List A
  present [] = []
  present (none ∷ ds) = present ds
  present (some d ∷ ds) = d ∷ present ds

-- Without a search, the file's name is not sorted by.
abbrev pub sort_shares : ShareSortField → SortOrder → List FileAccess → List FileAccess
sort_shares ShareSortField.created_at order ds = sort_created order ds
sort_shares ShareSortField.expires_at order ds =
    sort_with order (λ s t. leb s.expires_at t.expires_at) ds
sort_shares ShareSortField.file_name order ds = sort_created order ds

-- `$lookup` and `$unwind`: the shares with their files
unfoldable pub with_files : List File → List FileAccess → List (FileAccess × File)
with_files files [] = []
with_files files (s ∷ ss) =
    map (λ f. (s, f)) (find_all (λ (f : File). f.id == s.file_id) files) ++ with_files files ss

module _ (matching : Matching) where
  abbrev pub sort_items :
      ShareSortField → SortOrder → List (FileAccess × File) → List (FileAccess × File)
  sort_items ShareSortField.created_at order items = sort_created order items
  sort_items ShareSortField.expires_at order items =
      sort_with order (λ x y. leb x.0.expires_at y.0.expires_at) items
  sort_items ShareSortField.file_name order items =
      sort_with order (λ x y. matching.name_before x.1.original_name y.1.original_name) items

  -- The second `$match`
  abbrev pub item_matches : ℕ → FileAccess × File → Bool
  item_matches search item = found_by matching search item.1.original_name && not item.1.is_deleted

  abbrev pub search_shares : ℕ → (FileAccess → Bool) → World → List (FileAccess × File)
  search_shares search filter w =
      find_all (item_matches search) (with_files w.files (find_all filter w.shares))

  -- `findById(item._id)` of every item
  abbrev pub read_again : World → List (FileAccess × File) → List FileAccess
  read_again w items = present (map (λ item. find_one (by_id item.0.id) w.shares) items)

  abbrev pub share_matches : (FileAccess → Bool) → SharesQuery → FileAccess → Bool
  share_matches base q s = base s && same_status s.status (get_or q.status ShareStatus.active)

  -- `if (search)`
  abbrev pub list_matching : Option ℕ → (FileAccess → Bool) → SharesQuery → World → Page FileAccess
  list_matching none filter q w =
      page_of q (count_documents filter w.shares)
        (slice q (sort_shares q.sort_by q.sort_order (find_all filter w.shares)))
  list_matching (some search) filter q w =
      let items = search_shares search filter w in
      page_of q (length items) (read_again w (slice q (sort_items q.sort_by q.sort_order items)))

  unfoldable pub list_shares : (FileAccess → Bool) → SharesQuery → World → Page FileAccess
  list_shares base q w = list_matching (or_null q.search) (share_matches base q) q w

  unfoldable pub get_shared_with_me : SharesQuery → AuthenticatedUser → World → Page FileAccess
  unfolding list_shares
  get_shared_with_me q user w = list_shares (λ s. s.shared_with_user_id == user.user_id) q w

  unfoldable pub get_shared_by_me : SharesQuery → AuthenticatedUser → World → Page FileAccess
  unfolding list_shares
  get_shared_by_me q user w = list_shares (λ s. s.owner_id == user.user_id) q w
