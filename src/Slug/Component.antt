-- ===== src/Slug/Component.antt =====
-- A name that the patterns let through is one component of a path.
use relay_agent.Base.{
  Bool, Bool-cases, Text, [], all, arith, false, inl, inr, refl, true, ℕ, ◌==◌, ◌||◌, ◌∷◌, ◌≡◌,
}
use relay_agent.Slug.{before_end, has_shape, is_instance_slug, is_lower_or_digit, is_tenant_slug}

unfoldable pub has : ℕ → Text → Bool
has c [] = false
has c (d ∷ s) = d == c || has c s

-- Not empty, no slash, no NUL, and neither `.` nor `..`, since it does not start with a dot.
abbrev pub IsComponent : Text → Type 0
IsComponent [] = ⊥
IsComponent (c ∷ s) = ((c == b'.') ≡ false) × (has b'/' (c ∷ s) ≡ false) × (has 0 (c ∷ s) ≡ false)

module _ (is_inner : ℕ → Bool) (c : ℕ) (not_inner : is_inner c ≡ false)
    (visible : (10 == c) ≡ false) where
  has-inner : (s : Text) → all is_inner (before_end s) ≡ true → has c s ≡ false
  unfolding has before_end
  has-inner [] h = refl
  has-inner (d ∷ []) h = elim (Bool-cases (d == 10)) [
    | inl e ↦ ground (arith, h)
    | inr e ↦ ground (arith, h)
  ]
  has-inner (d ∷ e ∷ s) h = ground (arith, has-inner (e ∷ s))

  -- The first character is no slash either.
  pub has-shape :
      (s : Text)
      → is_lower_or_digit c ≡ false
      → has_shape is_inner (before_end s) ≡ true
      → has c s ≡ false
  unfolding has before_end
  has-shape [] o h = refl
  has-shape (d ∷ []) o h = ground arith
  has-shape (d ∷ e ∷ s) o h = ground (arith, has-inner (e ∷ s))

head-shape :
    (is_inner : ℕ → Bool) (c : ℕ) (s : Text)
    → has_shape is_inner (before_end (c ∷ s)) ≡ true
    → is_lower_or_digit c ≡ true
unfolding before_end
head-shape is_inner c [] h = ground arith
head-shape is_inner c (d ∷ s) h = ground arith

shape-IsComponent :
    (is_inner : ℕ → Bool) (s : Text)
    → is_inner b'/' ≡ false
    → is_inner 0 ≡ false
    → has_shape is_inner (before_end s) ≡ true
    → IsComponent s
unfolding before_end
shape-IsComponent is_inner [] p q h = cc
shape-IsComponent is_inner (c ∷ s) p q h = (
  no_dot c (head-shape is_inner c s h),
  has-shape is_inner b'/' p refl (c ∷ s) refl h,
  has-shape is_inner 0 q refl (c ∷ s) refl h,
)
  where
    no_dot : (c : ℕ) → is_lower_or_digit c ≡ true → (c == b'.') ≡ false
    no_dot c l = ground arith

-- Every slug that is let through, of a tenant database or of an instance, is one component of a
-- path.
pub slug-IsComponent : (s : Text) → is_tenant_slug s || is_instance_slug s ≡ true → IsComponent s
unfolding is_tenant_slug is_instance_slug
slug-IsComponent s h = elim (Bool-cases (is_tenant_slug s)) [
  | inl t ↦ shape-IsComponent (λ c. is_lower_or_digit c || c == b'-') s refl refl t
  | inr t ↦
      shape-IsComponent (λ c. is_lower_or_digit c || c == b'-' || c == b'_') s refl refl
        (or_second _ _ t h)
]
  where
    or_second : (a b : Bool) → a ≡ false → a || b ≡ true → b ≡ true
    or_second a b p q = ground arith
