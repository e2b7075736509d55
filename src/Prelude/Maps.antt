-- ===== src/Prelude/Maps.antt =====
-- Association lists, for stores that map a key to its last value.
use mathlib.Core.Path.{◌≡◌}
use mathlib.Core.Bool.{Bool, true, false}
use mathlib.Core.Option.{Option, none, some}
use mathlib.Core.List.{List, [], ◌∷◌}
use mathlib.Core.Logic.{inl, inr}
use native.Mathlib.Omega.{arith}
use securevault_backend.Prelude.Tests.{if◌then◌else◌, Bool-cases}

module _ {ℓ κ} {K : Type ℓ} {V : Type κ} (same : K → K → Bool) where
  abbrev pub lookup : K → List (K × V) → Option V
  lookup k [] = none
  lookup k ((j, v) ∷ m) = let rest = lookup k m in if same k j then some v else rest

  -- The last value written shadows those before it.
  abbrev pub insert : K → V → List (K × V) → List (K × V)
  insert k v m = (k, v) ∷ m

  abbrev pub remove : K → List (K × V) → List (K × V)
  remove k [] = []
  remove k ((j, v) ∷ m) = let rest = remove k m in if same k j then rest else (j, v) ∷ rest

  module _ (sound : (j k : K) → same j k ≡ true → j ≡ k) (self : (k : K) → same k k ≡ true) where
    pub lookup-remove :
        (k j : K) (m : List (K × V))
        → lookup k (remove j m) ≡ (if same k j then none else lookup k m)
    lookup-remove k j [] = ground arith
    lookup-remove k j ((i, v) ∷ m) = elim (Bool-cases (same j i)) [
      | inl e ↦
          let whole = sound j i e in
          elim (Bool-cases (same k j)) [
            | inl h ↦ let rest = lookup-remove k j m in ground (arith, rest)
            | inr h ↦
                let other : same k i ≡ false = rw whole at h in
                let rest = lookup-remove k j m in ground (arith, rest)
          ]
      | inr e ↦ elim (Bool-cases (same k i)) [
        | inl h ↦
            let here = sound k i h in
            let other : same k j ≡ false = elim (Bool-cases (same k j)) [
              | inl bad ↦ absurd (let wrong = sound k j bad in let at_i = self i in cc)
              | inr good ↦ good
            ] in
            ground arith
        | inr h ↦ let rest = lookup-remove k j m in ground (arith, rest)
      ]
    ]
