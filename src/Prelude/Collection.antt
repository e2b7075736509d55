-- ===== src/Prelude/Collection.antt =====
-- A document collection as the list of its documents, in insertion order, with the queries and
-- updates that the services make of it. A filter is a Boolean test.
use Prim.Native.Nat.{ℕ, ◌+◌, ◌≤◌}
use mathlib.Core.Path.{◌≡◌, refl, ◌∙◌}
use mathlib.Core.Bool.{Bool, true, false}
use mathlib.Core.Logic.{◌⊎◌, inl, inr}
use mathlib.Core.Option.{Option, none, some}
use mathlib.Core.List.{List, [], ◌∷◌, ◌++◌, map}
use native.Mathlib.Omega.{arith}
use securevault_backend.Prelude.Tests.{if◌then◌else◌, Bool-cases}
use securevault_backend.Prelude.Lists.{All}

module _ {ℓ} {A : Type ℓ} where
  -- `findOne(filter)`: the first document that matches
  abbrev pub find_one : (A → Bool) → List A → Option A
  find_one p [] = none
  find_one p (d ∷ ds) = if p d then some d else find_one p ds

  -- `find(filter)`
  abbrev pub find_all : (A → Bool) → List A → List A
  find_all p [] = []
  find_all p (d ∷ ds) = let rest = find_all p ds in if p d then d ∷ rest else rest

  -- `countDocuments(filter)`, and the `modifiedCount` of an update that changes what it matches
  abbrev pub count_documents : (A → Bool) → List A → ℕ
  count_documents p [] = 0
  count_documents p (d ∷ ds) = (if p d then 1 else 0) + count_documents p ds

  -- `updateMany(filter, change)`
  abbrev pub update_many : (A → Bool) → (A → A) → List A → List A
  update_many p f = map (λ d. if p d then f d else d)

  -- `updateOne(filter, change)`, and `save` of a document found by its key
  abbrev pub update_one : (A → Bool) → (A → A) → List A → List A
  update_one p f [] = []
  update_one p f (d ∷ ds) = if p d then f d ∷ ds else d ∷ update_one p f ds

  pub find_one-holds : (p : A → Bool) (ds : List A) (d : A) → find_one p ds ≡ some d → p d ≡ true
  find_one-holds p [] d h = cc
  find_one-holds p (x ∷ ds) d h = ground (arith, find_one-holds p ds d)

  pub find_one-none :
      (p : A → Bool) (ds : List A) → find_one p ds ≡ none → All (λ d. p d ≡ false) ds
  find_one-none p [] h = tt
  find_one-none p (x ∷ ds) h = ground (arith, find_one-none p ds)

  pub find_one_of_none :
      (p : A → Bool) (ds : List A) → All (λ d. p d ≡ false) ds → find_one p ds ≡ none
  find_one_of_none p [] h = refl
  find_one_of_none p (x ∷ ds) h = ground (arith, find_one_of_none p ds h.1)

  -- What holds of every document holds of the one that is found.
  pub find_one-All {κ} :
      (P : A → Type κ) (p : A → Bool) (ds : List A) (d : A)
      → All P ds
      → find_one p ds ≡ some d
      → P d
  find_one-All P p [] d h e = cc
  find_one-All P p (x ∷ ds) d h e = elim (Bool-cases (p x)) [
    | inl found ↦ let same : x ≡ d = ground arith in rw (← same) h.0
    | inr other ↦ find_one-All P p ds d h.1 (ground arith)
  ]

  pub update_many-All {κ} :
      (P : A → Type κ) (p : A → Bool) (f : A → A) (ds : List A)
      → ((d : A) → p d ≡ true → P d → P (f d))
      → All P ds
      → All P (update_many p f ds)
  update_many-All P p f [] keep h = tt
  update_many-All P p f (d ∷ ds) keep h = elim (Bool-cases (p d)) [
    | inl hit ↦ rw hit (keep d hit h.0, update_many-All P p f ds keep h.1)
    | inr miss ↦ rw miss (h.0, update_many-All P p f ds keep h.1)
  ]

  pub update_one-All {κ} :
      (P : A → Type κ) (p : A → Bool) (f : A → A) (ds : List A)
      → ((d : A) → p d ≡ true → P d → P (f d))
      → All P ds
      → All P (update_one p f ds)
  update_one-All P p f [] keep h = tt
  update_one-All P p f (d ∷ ds) keep h = elim (Bool-cases (p d)) [
    | inl hit ↦ rw hit (keep d hit h.0, h.1)
    | inr miss ↦ rw miss (h.0, update_one-All P p f ds keep h.1)
  ]

  -- An update of all that matches, to what does not match, leaves nothing that matches.
  pub count_documents-update_many :
      (p : A → Bool) (f : A → A) (ds : List A)
      → ((d : A) → p (f d) ≡ false)
      → count_documents p (update_many p f ds) ≡ 0
  count_documents-update_many p f [] miss = refl
  count_documents-update_many p f (d ∷ ds) miss =
      ground (arith, miss d, count_documents-update_many p f ds miss)

  pub count_documents_of_none :
      (p : A → Bool) (ds : List A) → find_one p ds ≡ none → count_documents p ds ≡ 0
  count_documents_of_none p [] h = refl
  count_documents_of_none p (d ∷ ds) h = ground (arith, count_documents_of_none p ds)

  pub count_documents-append :
      (p : A → Bool) (ds es : List A)
      → count_documents p (ds ++ es) ≡ count_documents p ds + count_documents p es
  count_documents-append p [] es = omega arith
  count_documents-append p (d ∷ ds) es = omega (arith, count_documents-append p ds es)

  -- An update that makes nothing match anew does not raise a count.
  pub count_documents-update_one-le :
      (q p : A → Bool) (f : A → A) (ds : List A)
      → ((d : A) → p d ≡ true → q (f d) ≡ true → q d ≡ true)
      → count_documents q (update_one p f ds) ≤ count_documents q ds
  count_documents-update_one-le q p f [] keep = omega arith
  count_documents-update_one-le q p f (d ∷ ds) keep =
      ground (arith, keep d, count_documents-update_one-le q p f ds keep)

  pub count_documents-update_many-le :
      (q p : A → Bool) (f : A → A) (ds : List A)
      → ((d : A) → p d ≡ true → q (f d) ≡ true → q d ≡ true)
      → count_documents q (update_many p f ds) ≤ count_documents q ds
  count_documents-update_many-le q p f [] keep = omega arith
  count_documents-update_many-le q p f (d ∷ ds) keep =
      ground (arith, keep d, count_documents-update_many-le q p f ds keep)

  -- An update of the document that is found, under the filter that finds it.
  pub update_found-All {κ} :
      (P : A → Type κ) (p : A → Bool) (f : A → A) (ds : List A) (s : A)
      → find_one p ds ≡ some s
      → (P s → P (f s))
      → All P ds
      → All P (update_one p f ds)
  update_found-All P p f [] s e keep h = tt
  update_found-All P p f (d ∷ ds) s e keep h = elim (Bool-cases (p d)) [
    | inl hit ↦
        let same : s ≡ d = ground arith in
        let kept : P d → P (f d) = rw same at keep in rw hit (kept h.0, h.1)
    | inr miss ↦ rw miss (h.0, update_found-All P p f ds s (ground arith) keep h.1)
  ]

  pub count_documents-update_found-le :
      (q p : A → Bool) (f : A → A) (ds : List A) (s : A)
      → find_one p ds ≡ some s
      → (q (f s) ≡ true → q s ≡ true)
      → count_documents q (update_one p f ds) ≤ count_documents q ds
  count_documents-update_found-le q p f [] s e keep = omega arith
  count_documents-update_found-le q p f (d ∷ ds) s e keep =
      ground (arith, count_documents-update_found-le q p f ds s)

  pub count_documents-pos :
      (p q : A → Bool) (ds : List A) (s : A)
      → find_one p ds ≡ some s
      → q s ≡ true
      → 1 ≤ count_documents q ds
  count_documents-pos p q [] s e h = cc
  count_documents-pos p q (d ∷ ds) s e h = ground (arith, count_documents-pos p q ds s)

  -- Where at most one document matches, every query that finds a match finds the same one.
  pub find_one_of_count :
      (p q : A → Bool) (ds : List A) (s : A)
      → find_one p ds ≡ some s
      → q s ≡ true
      → count_documents q ds ≤ 1
      → find_one q ds ≡ some s
  find_one_of_count p q [] s e h c = cc
  find_one_of_count p q (d ∷ ds) s e h c =
      ground (arith, count_documents-pos p q ds s, find_one_of_count p q ds s)

  pub find_one_of_count_zero :
      (p : A → Bool) (ds : List A) → count_documents p ds ≡ 0 → find_one p ds ≡ none
  find_one_of_count_zero p [] h = refl
  find_one_of_count_zero p (d ∷ ds) h = ground (arith, find_one_of_count_zero p ds)

  pub count_documents-All :
      (p : A → Bool) (ds : List A) → All (λ d. p d ≡ false) ds → count_documents p ds ≡ 0
  count_documents-All p [] h = refl
  count_documents-All p (d ∷ ds) h = ground (arith, count_documents-All p ds h.1)

  -- A count after an update of the document that is found.
  pub count_documents-update_found :
      (q p : A → Bool) (f : A → A) (ds : List A) (s : A)
      → find_one p ds ≡ some s
      → count_documents q (update_one p f ds) + (if q s then 1 else 0)
        ≡ count_documents q ds + (if q (f s) then 1 else 0)
  count_documents-update_found q p f [] s e = cc
  count_documents-update_found q p f (d ∷ ds) s e =
      ground (arith, count_documents-update_found q p f ds s)

  pub find_one-update_one :
      (p : A → Bool) (f : A → A) (ds : List A) (s : A)
      → find_one p ds ≡ some s
      → p (f s) ≡ true
      → find_one p (update_one p f ds) ≡ some (f s)
  find_one-update_one p f [] s e h = cc
  find_one-update_one p f (d ∷ ds) s e h = ground (arith, find_one-update_one p f ds s)

  -- An update that ends everything that it matches, where nothing else counts, leaves nothing.
  pub count_documents-update_all :
      (q p : A → Bool) (f : A → A) (ds : List A)
      → ((d : A) → p d ≡ true → q (f d) ≡ false)
      → ((d : A) → p d ≡ false → q d ≡ false)
      → count_documents q (update_many p f ds) ≡ 0
  count_documents-update_all q p f [] hit miss = refl
  count_documents-update_all q p f (d ∷ ds) hit miss =
      ground (arith, hit d, miss d, count_documents-update_all q p f ds hit miss)

  pub count_documents_mono :
      (p q : A → Bool) (ds : List A)
      → ((d : A) → p d ≡ true → q d ≡ true)
      → count_documents p ds ≤ count_documents q ds
  count_documents_mono p q [] h = omega arith
  count_documents_mono p q (d ∷ ds) h = ground (arith, h d, count_documents_mono p q ds h)

  -- What is found is still found after documents are added.
  pub find_one-append :
      (p : A → Bool) (ds es : List A) (d : A)
      → find_one p ds ≡ some d
      → find_one p (ds ++ es) ≡ some d
  find_one-append p [] es d h = absurd cc
  find_one-append p (x ∷ ds) es d h = elim (Bool-cases (p x)) [
    | inl hit ↦ rw hit (rw hit at h)
    | inr other ↦ rw other (find_one-append p ds es d (rw other at h))
  ]

  -- After a change of one document that keeps what a query tests, the query finds what it found
  -- before, or the changed document.
  pub find_one-update_either :
      (p q : A → Bool) (f : A → A) (ds : List A) (d : A)
      → ((x : A) → q (f x) ≡ q x)
      → find_one q ds ≡ some d
      → (find_one q (update_one p f ds) ≡ some d) ⊎ (find_one q (update_one p f ds) ≡ some (f d))
  find_one-update_either p q f [] d keep h = absurd cc
  find_one-update_either p q f (x ∷ ds) d keep h = elim (Bool-cases (p x)) [
    | inl hit ↦ elim (Bool-cases (q x)) [
      | inl here ↦
          let same : q (f x) ≡ true = keep x ∙ here in
          let found : x ≡ d = let e = rw here at h in cc in inr (rw (hit, same, found) refl)
      | inr there ↦
          let other : q (f x) ≡ false = keep x ∙ there in inl (rw (hit, other) (rw there at h))
    ]
    | inr miss ↦ elim (Bool-cases (q x)) [
      | inl here ↦ inl (rw (miss, here) (rw here at h))
      | inr there ↦ rw (miss, there) (find_one-update_either p q f ds d keep (rw there at h))
    ]
  ]
