-- ===== src/Permissions/Laws.antt =====
-- The permission matrix against the hierarchy of roles, and what the checks of permissions and of
-- a route's roles decide (src/modules/permissions, src/modules/auth/guards).
use securevault_backend.Prelude.{
  Bool, true, ◌&&◌, Option, none, some, List, [], ◌∷◌, ◌≡◌, refl, ◌↔◌, ◌⊎◌, inl, inr, arith, ◌==◌,
  Bool-cases, is_some, find_one,
}
use mathlib.Core.List.{Memᴰ}
use securevault_backend.Schema.{Role, same_role, Permission}
use securevault_backend.World.{World, ok}
use securevault_backend.Permissions.{
  has_higher_or_equal_role, permission_index, includes, role_permissions, override_for,
  has_permission, includes_role, can_activate,
}

abbrev covers : List Permission → List Permission → Bool
covers ps [] = true
covers ps (q ∷ qs) = includes ps q && covers ps qs

includes_same :
    (ps : List Permission) (q p : Permission)
    → permission_index q ≡ permission_index p
    → includes ps q ≡ true
    → includes ps p ≡ true
unfolding includes
includes_same [] q p e h = cc
includes_same (x ∷ ps) q p e h = ground (arith, includes_same ps q p e)

covers-includes :
    (ps qs : List Permission) (p : Permission)
    → covers ps qs ≡ true
    → includes qs p ≡ true
    → includes ps p ≡ true
covers-includes ps [] p c h = absurd (unfold includes in cc)
covers-includes ps (q ∷ qs) p c h = elim (Bool-cases (permission_index q == permission_index p)) [
  | inl same ↦ includes_same ps q p (ground arith) (ground arith)
  | inr other ↦ covers-includes ps qs p (ground arith) (unfold includes in ground arith)
]

covers_lower :
    (a b : Role)
    → has_higher_or_equal_role a b ≡ true
    → covers (role_permissions a) (role_permissions b) ≡ true
unfolding has_higher_or_equal_role role_permissions includes permission_index
covers_lower Role.super_admin Role.super_admin h = refl
covers_lower _ _ h = ground arith

-- A role has every permission that the matrix gives to a role that is not above it.
pub role_permissions_inherited :
    (a b : Role) (p : Permission)
    → has_higher_or_equal_role a b ≡ true
    → includes (role_permissions b) p ≡ true
    → includes (role_permissions a) p ≡ true
role_permissions_inherited a b p h i =
    covers-includes (role_permissions a) (role_permissions b) p (covers_lower a b h) i

-- A role has a permission exactly when the matrix gives it or the collection holds an override
-- that allows it; nothing is changed. An override with `allowed: false` takes nothing away.
pub has_permission_iff :
    (r : Role) (p : Permission) (w : World)
    → ((has_permission r p w ≡ (ok true, w)) ↔ (
        (includes (role_permissions r) p ≡ true)
        ⊎ (is_some (find_one (override_for r p) w.permissions) ≡ true)))
unfolding has_permission
has_permission_iff r p w = elim (Bool-cases (includes (role_permissions r) p)) [
  | inl given ↦ (λ _. inl given, λ _. rw given)
  | inr missing ↦
      (λ h. inr (let found = rw missing at h in ground arith), λ h. rw missing (ground arith))
]

includes_role_sound : (rs : List Role) (r : Role) → includes_role rs r ≡ true → Memᴰ r rs
includes_role_sound [] r h = absurd (ground arith)
includes_role_sound (q ∷ qs) r h = elim (Bool-cases (same_role q r)) [
  | inl same ↦ Memᴰ.head (ground arith)
  | inr other ↦ Memᴰ.tail (includes_role_sound qs r (ground arith))
]

same_role_refl : (r : Role) → same_role r r ≡ true
same_role_refl r = ground arith

includes_role_complete : {r : Role} (rs : List Role) → Memᴰ r rs → includes_role rs r ≡ true
includes_role_complete [] m = elim m [ ]
includes_role_complete {r} (q ∷ qs) (Memᴰ.head e) = rw (← e, same_role_refl r)
includes_role_complete (q ∷ qs) (Memᴰ.tail m) = ground (arith, includes_role_complete qs m)

-- The guard lets a request pass exactly when the route requires no role, or the user has one of
-- the roles that it requires.
pub can_activate_iff :
    (required : List Role) (user : Option Role)
    → (can_activate required user ≡ ok true)
      ↔ ((required ≡ []) ⊎ ((role : Role) × (user ≡ some role) × Memᴰ role required))
unfolding can_activate
can_activate_iff [] user = (λ _. inl refl, λ _. refl)
can_activate_iff (r ∷ rs) none = (λ h. absurd (ground arith), λ h. absurd (ground arith))
can_activate_iff (r ∷ rs) (some role) = (
  λ h. inr (role, refl, includes_role_sound (r ∷ rs) role (ground arith)),
  λ h. elim h [
    | inl empty ↦ absurd (ground arith)
    | inr (q, same, m) ↦
        let here : includes_role (r ∷ rs) q ≡ true = includes_role_complete (r ∷ rs) m in
        ground arith
  ],
)
