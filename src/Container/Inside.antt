-- ===== src/Container/Inside.antt =====
-- What a relative volume path is resolved to.
use relay_agent.Base.{
  All, Bool, Bool-cases, List, Text, [], ap, arith, false, if◌then◌else◌, inl, inr, none, not, some,
  subst, true, ◌++◌, ◌||◌, ◌∙◌, ◌∷◌, ◌≡◌,
}
use relay_agent.Container.Volumes.{
  Resolved, any_link, is_inside, real_path, resolve_volume, starts_with_slash,
}
use relay_agent.Fs.Cursor.{split_path}
use relay_agent.Fs.Lexical.{is_under, normalise, same_path}
use relay_agent.Fs.Plain.{is_plain, normalise-Plain, same_path-eq}

is_under-eq : (root p : List Text) → is_under root p ≡ true → (q : List Text) × (p ≡ q ++ root)
unfolding is_under
is_under-eq root [] h = ([], same_path-eq [] root h)
is_under-eq root (c ∷ p) h = elim (Bool-cases (same_path (c ∷ p) root)) [
  | inl at_root ↦ ([], same_path-eq (c ∷ p) root at_root)
  | inr below_it ↦
      let (q, e) = is_under-eq root p (or_second _ _ below_it h) in (c ∷ q, ap (λ t. c ∷ t) e)
]
  where
    or_second : (a b : Bool) → a ≡ false → a || b ≡ true → b ≡ true
    or_second a b k l = ground (arith, k, l)

is_inside-eq : (root p : List Text) → is_inside root p ≡ true → (q : List Text) × (p ≡ q ++ root)
unfolding is_inside
is_inside-eq [] p h = ([], same_path-eq p [] h)
is_inside-eq (r ∷ root) p h = is_under-eq (r ∷ root) p h

All-front : (P : Text → Type 0) (q root : List Text) → All P (q ++ root) → All P q
All-front P [] root h = tt
All-front P (c ∷ q) root (h, hs) = (h, All-front P q root hs)

accepted :
    (a b c e : Bool) (x y r : Resolved)
    → (if a
        then some x
        else if not b
        then none
        else if c
        then none
        else if not e
        then none
        else some y)
      ≡ some r
    → a ≡ false
    → (b ≡ true) × (c ≡ false) × (r ≡ y)
accepted a b c e x y r h k = ground (arith, h, k)

module _ (real : List Text → List Text) (is_link : List Text → Bool) (root : List Text) where
  -- Where `os.path.realpath` leaves a path alone that passes through no link below the root, and
  -- the root's own components are plain names: a relative path that is accepted is resolved to the
  -- root or to a path below it, all of whose components are plain, none of them `..`.
  pub resolve_volume-Inside :
      (host_path : Text) (r : Resolved)
      → ((p : List Text) → any_link real is_link root p ≡ false → real p ≡ p)
      → All (λ c. is_plain c ≡ true) root
      → starts_with_slash host_path ≡ false
      → resolve_volume real is_link root host_path ≡ some r
      → (q : List Text) × (r ≡ real_path (q ++ root)) × All (λ c. is_plain c ≡ true) q
  unfolding resolve_volume
  resolve_volume-Inside host_path r honest plain_root relative resolved =
      let joined = normalise root (split_path host_path) in
      let (inside, unlinked, same_r) = accepted _ _ _ _ _ _ r resolved relative in
      let (q, e) = is_inside-eq root joined inside in
      (
        q,
        same_r ∙ ap real_path (honest joined unlinked ∙ e),
        All-front (λ c. is_plain c ≡ true) q root
            (subst (All (λ c. is_plain c ≡ true)) e
              (normalise-Plain root (split_path host_path) plain_root)),
      )
