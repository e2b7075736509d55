-- ===== src/Listings/Pages.antt =====
-- What the pages of a listing hold together.
use native.Mathlib.Nat.{le-div_iff_mul-le, div-lt_iff_lt-mul}
use securevault_backend.Prelude.{
  ℕ, zero, suc, ◌+◌, ◌-◌, ◌*◌, ◌≤◌, ◌<◌, Bool, true, List, [], ◌∷◌, ◌++◌, ◌≡◌, refl, ap, ◌∙◌, sym,
  ◌↔◌, arith, length, length-take, take, drop, find_all, count_documents, Bool-cases, inl, inr,
}
use securevault_backend.Listings.{pages_of, find_page}

module _ {A : Type 0} where
  take_add : (a b : ℕ) (xs : List A) → take (a + b) xs ≡ take a xs ++ take b (drop a xs)
  take_add zero b xs = let e : 0 + b ≡ b = omega arith in rw e refl
  take_add (suc a) zero [] = let e : suc a + 0 ≡ suc a = omega arith in rw e refl
  take_add (suc a) (suc b) [] = let e : suc a + suc b ≡ suc (a + suc b) = omega arith in rw e refl
  take_add (suc a) b (x ∷ xs) =
      let e : suc a + b ≡ suc (a + b) = omega arith in rw e (ap (λ r. x ∷ r) (take_add a b xs))

  take_all : (n : ℕ) (xs : List A) → length xs ≤ n → take n xs ≡ xs
  take_all zero [] h = refl
  take_all zero (x ∷ xs) h = absurd (omega arith)
  take_all (suc n) [] h = refl
  take_all (suc n) (x ∷ xs) h = ap (λ r. x ∷ r) (take_all n xs (omega arith))

  length-count : (xs : List A) → count_documents (λ x. true) xs ≡ length xs
  length-count [] = refl
  length-count (x ∷ xs) = omega (arith, length-count xs)

  length-find_all : (p : A → Bool) (ds : List A) → length (find_all p ds) ≡ count_documents p ds
  length-find_all p [] = refl
  length-find_all p (d ∷ ds) = elim (Bool-cases (p d)) [
    | inl hit ↦ rw hit (omega (arith, length-find_all p ds))
    | inr miss ↦ rw miss (omega (arith, length-find_all p ds))
  ]

  -- The pages up to one, one after the other, of queries whose sorts are given.
  abbrev pub first_pages : (ℕ → List A → List A) → (A → Bool) → ℕ → List A → ℕ → List A
  first_pages sort p limit ds zero = []
  first_pages sort p limit ds (suc n) =
      first_pages sort p limit ds n ++ (find_page (sort (suc n)) p (suc n) limit ds).data_of

  -- The list has the documents of another, each as often.
  abbrev pub SameDocuments : List A → List A → Type 0
  SameDocuments xs ys = (q : A → Bool) → count_documents q xs ≡ count_documents q ys

  module _ (p : A → Bool) (limit : ℕ) (ds : List A) where
    pages_of-enough :
        0 < limit → count_documents p ds ≤ pages_of (count_documents p ds) limit * limit
    pages_of-enough positive =
        let total = count_documents p ds in
        let c = pages_of total limit in
        let below : total + (limit - 1) < (c + 1) * limit =
          (div-lt_iff_lt-mul {k = limit} {x = total + (limit - 1)} {y = c + 1} positive).0
            (omega arith) in
        let spread : (c + 1) * limit ≡ c * limit + limit = grind arith in
        omega (arith, below, spread)

    -- A page is before the last exactly if a document comes after it.
    before_last :
        0 < limit
        → (page : ℕ)
        → (page < pages_of (count_documents p ds) limit) ↔ (page * limit < count_documents p ds)
    before_last positive page =
        let total = count_documents p ds in
        let spread : (page + 1) * limit ≡ page * limit + limit = grind arith in
        let exact =
          le-div_iff_mul-le {k = limit} {x = page + 1} {y = total + (limit - 1)} positive in
        (
          λ h. let fits = exact.0 (omega arith) in omega (arith, fits, spread),
          λ h.
              let fits : (page + 1) * limit ≤ total + (limit - 1) = omega (arith, spread) in
              let le = exact.1 fits in omega (arith, le),
        )

    module _ (sort : ℕ → List A → List A) (sorted : List A)
        (steady : (n : ℕ) → sort n (find_all p ds) ≡ sorted)
        (same : SameDocuments sorted (find_all p ds)) where
      first_pages-take : (n : ℕ) → first_pages sort p limit ds n ≡ take (n * limit) sorted
      unfolding find_page
      first_pages-take zero = let e : 0 * limit ≡ 0 = omega arith in rw e refl
      first_pages-take (suc n) =
          let back : suc n - 1 ≡ n = omega arith in
          let e : suc n * limit ≡ n * limit + limit = grind arith in
          let here = steady (suc n) in
          rw (back, e, here)
            (ap (λ r. r ++ take limit (drop (n * limit) sorted)) (first_pages-take n)
              ∙ sym (take_add (n * limit) limit sorted))

      length-sorted : length sorted ≡ count_documents p ds
      length-sorted =
          sym (length-count sorted)
          ∙ same (λ x. true)
          ∙ length-count (find_all p ds)
          ∙ length-find_all p ds

      -- For a limit that is not 0, a page has no more documents than the limit, and there is a next
      -- page exactly if the documents that match are more than those up to the page. Where the
      -- database sorts the documents that match in one order for the queries of all pages, the
      -- pages together are those documents in that order, so none is missed or repeated.
      pub find_page-Complete :
          0 < limit
          → ((page : ℕ) → length (find_page (sort page) p page limit ds).data_of ≤ limit)
            × ((page : ℕ)
                → ((find_page (sort page) p page limit ds).has_next_page ≡ true)
                  ↔ (page * limit < count_documents p ds))
            × (let pages =
                  first_pages sort p limit ds (find_page (sort 1) p 1 limit ds).total_pages in
                (pages ≡ sorted) × SameDocuments pages (find_all p ds))
      unfolding find_page
      find_page-Complete positive =
          let total = count_documents p ds in
          let whole : first_pages sort p limit ds (pages_of total limit) ≡ sorted =
            first_pages-take (pages_of total limit)
            ∙ take_all (pages_of total limit * limit) sorted
                (omega (arith, length-sorted, pages_of-enough positive)) in
          (
            λ page.
                omega (
                  arith,
                  length-take limit (drop ((page - 1) * limit) (sort page (find_all p ds))),
                ),
            λ page.
                let order = before_last positive page in
                (λ h. order.0 (ground arith), λ h. let less = order.1 h in ground arith),
            (whole, λ q. ap (count_documents q) whole ∙ same q),
          )
