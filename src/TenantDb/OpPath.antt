-- ===== src/TenantDb/OpPath.antt =====
-- A path that `cleanup` accepts lies in the tenant's own directory, and never leads upwards.
use relay_agent.Base.{
  Bool, Option, String, Text, [], ap, arith, false, if-rule, if◌then◌else◌, none, not, refl,
  same-eq, some, sym, true, ℕ, ◌&&◌, ◌++◌, ◌==◌, ◌∙◌, ◌∷◌, ◌≡◌,
}
use relay_agent.Docker.{codes}
use relay_agent.TenantDb.Patterns.{
  after_beginning, has_two_dots, is_op_path, is_same, is_slug_char, op_path, op_slug, span,
  strip_prefix,
}

pub strip_prefix-eq : (p s r : Text) → strip_prefix p s ≡ some r → s ≡ p ++ r
unfolding strip_prefix
strip_prefix-eq [] s r h = ground (arith, h)
strip_prefix-eq (c ∷ p) [] r h = ground (arith, h)
strip_prefix-eq (c ∷ p) (x ∷ s) r h = ground (arith, h, strip_prefix-eq p s r)

span-eq : (p : ℕ → Bool) (s : Text) → (span p s).0 ++ (span p s).1 ≡ s
unfolding span
span-eq p [] = refl
span-eq p (c ∷ s) =
    if-rule {A = Text × Text} (λ t. t.0 ++ t.1 ≡ c ∷ s) (p c) (λ _. ap (λ t. c ∷ t) (span-eq p s))
      (λ _. refl)

taken_if :
    (b : Bool) (s slug : Text)
    → is_same (if b then some s else none) slug ≡ true
    → (b ≡ true) × (s ≡ slug)
taken_if true s slug h = (refl, same-eq s slug h)
taken_if false s slug h = ground (arith, h)

is_slash : (a b : Bool) (c : ℕ) → a && c == b'/' && b ≡ true → c ≡ b'/'
is_slash a b c h = ground arith

op_slug-eq :
    (p : Text × Text) (slug : Text)
    → is_same (op_slug p) slug ≡ true
    → (rest : Text) × (p.0 ++ p.1 ≡ slug ++ (b'/' ∷ rest))
op_slug-eq (slug', []) slug h = ground (arith, h)
op_slug-eq (slug', c ∷ s) slug h =
    let (matched, eq) = taken_if _ slug' slug h in
    (s, ap (λ t. t ++ (c ∷ s)) eq ∙ ap (λ x. slug ++ (x ∷ s)) (is_slash _ _ c matched))

op_path-eq :
    (o : Option Text) (rel slug : Text)
    → ((r : Text) → o ≡ some r → rel ≡ codes "_tenantdb/" ++ r)
    → is_same (after_beginning o) slug ≡ true
    → (rest : Text) × (rel ≡ codes "_tenantdb/" ++ (slug ++ (b'/' ∷ rest)))
op_path-eq none rel slug k h = ground (arith, h)
op_path-eq (some s) rel slug k h =
    let (rest, eq) = op_slug-eq (span is_slug_char s) slug h in
    (rest, k s refl ∙ ap (λ t. codes "_tenantdb/" ++ t) (sym (span-eq is_slug_char s) ∙ eq))

-- A path that `cleanup` accepts for a tenant begins with the tenant's own directory and a slash,
-- and has no two dots in a row.
pub is_op_path-Below :
    (slug : String) (rel : Text)
    → is_op_path slug rel ≡ true
    → ((rest : Text) × (rel ≡ codes "_tenantdb/" ++ (codes slug ++ (b'/' ∷ rest))))
      × (has_two_dots rel ≡ false)
unfolding is_op_path op_path
is_op_path-Below slug rel h = (
  op_path-eq (strip_prefix (codes "_tenantdb/") rel) rel (codes slug)
      (λ r. strip_prefix-eq (codes "_tenantdb/") rel r) (left_of _ _ h),
  right_of _ _ h,
)
  where
    left_of : (a b : Bool) → a && not b ≡ true → a ≡ true
    left_of a b e = ground (arith, e)

    right_of : (a b : Bool) → a && not b ≡ true → b ≡ false
    right_of a b e = ground (arith, e)
