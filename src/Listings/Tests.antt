-- ===== src/Listings/Tests.antt =====
-- Concrete listings, and the theorems on them.
use securevault_backend.Prelude.{
  ℕ, ◌*◌, ◌≤◌, ◌<◌, Bool, true, none, some, [], ◌∷◌, ◌≡◌, ◌↔◌, refl, arith, length, leb, find_all,
  count_documents, All, codes,
}
use securevault_backend.Files.Tests.{cabinet, reader}
use securevault_backend.Listings.{
  Matching, FilesQuery, find_page, newest_first, escape_search, list_files,
}
use securevault_backend.Shares.Tests.{shared_world, valid_world, ann}
use securevault_backend.Listings.SharedFiles.{
  ShareSortField, SortOrder, SharesQuery, with_files, list_shares, get_shared_with_me,
  get_shared_by_me,
}
use securevault_backend.Listings.SharedFiles.Own.{OwnShare, shared_listings-Own}
use securevault_backend.Listings.Pages.{SameDocuments, first_pages, find_page-Complete}
use securevault_backend.Listings.Readable.{Shown, list_files-Shown}

abbrev small : ℕ → Bool
small n = leb n 5

escaped : escape_search (codes "a.b") ≡ codes "a\\.b"
unfolding escape_search
escaped = refl

find_page-Complete_example :
    ((page : ℕ) → length (find_page newest_first small page 2 (1 ∷ 9 ∷ 2 ∷ 3 ∷ [])).data_of ≤ 2)
    × ((page : ℕ)
        → ((find_page newest_first small page 2 (1 ∷ 9 ∷ 2 ∷ 3 ∷ [])).has_next_page ≡ true)
          ↔ (page * 2 < count_documents small (1 ∷ 9 ∷ 2 ∷ 3 ∷ [])))
    × (let pages =
          first_pages
            (λ n. newest_first)
            small
            2
            (1 ∷ 9 ∷ 2 ∷ 3 ∷ [])
            (find_page newest_first small 1 2 (1 ∷ 9 ∷ 2 ∷ 3 ∷ [])).total_pages in
        (pages ≡ 3 ∷ 2 ∷ 1 ∷ []) × SameDocuments pages (find_all small (1 ∷ 9 ∷ 2 ∷ 3 ∷ [])))
find_page-Complete_example =
    find_page-Complete small 2 (1 ∷ 9 ∷ 2 ∷ 3 ∷ []) (λ n. newest_first) (3 ∷ 2 ∷ 1 ∷ []) (λ n. refl)
      (λ q. omega arith) (omega arith)

abbrev by_text : Matching
by_text = record {
  chars = λ n. n ∷ [];
  matches = λ pattern text. true;
  matches_action = λ pattern action. true;
  name_before = λ a b. leb a b;
}

abbrev everything : FilesQuery
everything = record {
  page = 1;
  limit = 20;
  search = none;
  mime_type = none;
  access_level = none;
  department = none;
}

list_files-Shown_example :
    All (Shown reader) (list_files by_text (λ ds. ds) everything reader cabinet).data_of
list_files-Shown_example =
    list_files-Shown by_text (λ ds. ds) (λ ds q. refl) everything reader cabinet

-- A manager may read the file of a department, but the listing does not show it.
manager_unlisted : (list_files by_text (λ ds. ds) everything reader cabinet).data_of ≡ []
unfolding list_files find_page
manager_unlisted = refl

abbrev by_name : SharesQuery
by_name = record {
  page = 1;
  limit = 20;
  status = none;
  sort_by = ShareSortField.file_name;
  sort_order = SortOrder.asc;
  search = some 4;
}

found_shares : length (get_shared_by_me by_text by_name ann shared_world).data_of ≡ 1
unfolding get_shared_by_me list_shares escape_search with_files
found_shares = refl

-- A share whose time has passed is still listed as active.
overdue_listed :
    length
      (get_shared_by_me by_text
        (record by_name { search = none })
        ann
        (record shared_world { now = 91 })).data_of
    ≡ 1
unfolding get_shared_by_me list_shares
overdue_listed = refl

shared_listings-Own_example :
    All
      (OwnShare (λ s. s.shared_with_user_id) by_name ann shared_world)
      (get_shared_with_me by_text by_name ann shared_world).data_of
    × All
        (OwnShare (λ s. s.owner_id) by_name ann shared_world)
        (get_shared_by_me by_text by_name ann shared_world).data_of
shared_listings-Own_example = shared_listings-Own by_text by_name ann shared_world valid_world
