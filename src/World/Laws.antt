-- ===== src/World/Laws.antt =====
-- A rule for an action whose first step only reads, and rules for a relation between the worlds
-- before and after an action.
use securevault_backend.Prelude.{Bool, true, false, Option, none, some, ◌≡◌, refl, ◌∙◌, ap}
use securevault_backend.World.{
  World, Exception, Result, ok, throw, Action, raise_if, or_raise, pure, gets, ◌>>=◌, ◌>>◌,
}

module _ {A B : Type 0} (k : A → Action B) (w : World) (P : Result B × World → Type 0) where
  -- What follows a read holds if it holds after a throw and after every value read.
  pub read_then :
      (m : Action A)
      → (m w).1 ≡ w
      → ((e : Exception) → P (throw e, w))
      → ((a : A) → m w ≡ (ok a, w) → P (k a w))
      → P ((m >>= k) w)
  read_then m same on_throw on_ok = go (m w) refl same
    where
      family : Result A × World → Type 0
      family (r, w') = P (elim r [ ok a ↦ k a w' | throw e ↦ (throw e, w') ])

      go : (r : Result A × World) → m w ≡ r → r.1 ≡ w → family r
      go (ok a, w') e s = rw s (on_ok a (e ∙ ap (λ v. (ok a, v)) s))
      go (throw x, w') e s = rw s (on_throw x)

module _ (R : World → World → Type 0) where
  -- Whatever it returns or throws, the action relates the world before to the world after.
  unfoldable pub Always : {A : Type 0} → Action A → Type 0
  Always m = (w : World) → R w (m w).1

  pub Always-bind :
      ((u v w : World) → R u v → R v w → R u w)
      → {A B : Type 0} (m : Action A) (k : A → Action B) → Always m
      → ((a : A) → Always (k a))
      → Always (m >>= k)
  unfolding Always
  Always-bind trans {A = A} {B = B} m k first second w = go (m w) (first w)
    where
      family : Result A × World → Type 0
      family (r, w') =
          let after : Result B × World = elim r [ ok a ↦ k a w' | throw e ↦ (throw e, w') ] in
          R w after.1

      go : (r : Result A × World) → R w r.1 → family r
      go (ok a, w') h = trans w w' _ h (second a w')
      go (throw e, w') h = h

  pub Always-raise_if :
      ((w : World) → R w w)
      → {B : Type 0} (c : Bool) (e : Exception) (k : Action B) → (c ≡ false → Always k)
      → Always (raise_if c e >> k)
  unfolding Always
  Always-raise_if same true e k h w = same w
  Always-raise_if same false e k h w = h refl w

  pub Always-or_raise :
      ((w : World) → R w w) → {A : Type 0} (o : Option A) (e : Exception) → Always (or_raise o e)
  unfolding Always
  Always-or_raise same none e w = same w
  Always-or_raise same (some a) e w = same w

  -- Actions that leave the world as it is.
  module _ (same : (w : World) → R w w) where
    pub Always-pure : {A : Type 0} (a : A) → Always (pure a)
    unfolding Always
    Always-pure a w = same w

    pub Always-gets : {A : Type 0} (f : World → A) → Always (gets f)
    unfolding Always
    Always-gets f w = same w

    pub Always-check : (c : Bool) (e : Exception) → Always (raise_if c e)
    unfolding Always
    Always-check c e w = same w

-- What a bind does with the first action's answer.
abbrev after : {A B : Type 0} → (A → Action B) → Result A × World → Result B × World
after k (ok a, w) = k a w
after k (throw e, w) = (throw e, w)

after-bind :
    {A B : Type 0} (m : Action A) (k : A → Action B) (w : World) → (m >>= k) w ≡ after k (m w)
after-bind {A = A} {B = B} m k w = go (m w)
  where
    family : Result A × World → Type 0
    family (r, w') =
        let answer : Result B × World = elim r [ ok a ↦ k a w' | throw e ↦ (throw e, w') ] in
        answer ≡ after k (r, w')

    go : (r : Result A × World) → family r
    go (ok a, w') = refl
    go (throw e, w') = refl

-- An action after one that returned, and after one that threw.
pub bind-ok :
    {A B : Type 0} (m : Action A) (k : A → Action B) (w w' : World) (a : A)
    → m w ≡ (ok a, w')
    → (m >>= k) w ≡ k a w'
bind-ok m k w w' a e = after-bind m k w ∙ ap (after k) e

pub bind-throw :
    {A B : Type 0} (m : Action A) (k : A → Action B) (w w' : World) (e : Exception)
    → m w ≡ (throw e, w')
    → (m >>= k) w ≡ (throw e, w')
bind-throw m k w w' x e = after-bind m k w ∙ ap (after k) e

-- A guard that passes, and one that does not.
pub raise_if-passes :
    {B : Type 0} (c : Bool) (e : Exception) (k : Action B) (w : World)
    → c ≡ false
    → (raise_if c e >> k) w ≡ k w
raise_if-passes c e k w h = rw h refl

pub raise_if-stops :
    {B : Type 0} (c : Bool) (e : Exception) (k : Action B) (w : World)
    → c ≡ true
    → (raise_if c e >> k) w ≡ (throw e, w)
raise_if-stops c e k w h = rw h refl

-- What follows a value that is there.
pub or_raise-some :
    {A B : Type 0} (o : Option A) (a : A) (e : Exception) (k : A → Action B) (w : World)
    → o ≡ some a
    → (or_raise o e >>= k) w ≡ k a w
or_raise-some o a e k w h = rw h refl
