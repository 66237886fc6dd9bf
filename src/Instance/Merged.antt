-- ===== src/Instance/Merged.antt =====
-- Which paths `_merge_addon_paths` gives.
use relay_agent.Base.{
  All, Bool, Bool-cases, List, Option, Text, [], any, ap, arith, false, if-rule, if◌then◌else◌, inl,
  inr, not, refl, same, same-eq, same_refl, subst, sym, true, ◌&&◌, ◌++◌, ◌||◌, ◌↔◌, ◌∙◌, ◌∷◌, ◌≡◌,
  ◌⊎◌,
}
use relay_agent.Fs.Cursor.{split_path}
use relay_agent.Instance.Addons.{
  custom_paths, fingerprint, fresh_paths, has_two, is_listed, is_shadowed, last_two,
  merge_addon_paths, same_parts, without_last_slashes,
}

is_listed-append :
    (ps qs : List Text) (path : Text)
    → is_listed (ps ++ qs) path ≡ (is_listed ps path || is_listed qs path)
unfolding is_listed
is_listed-append [] qs path = refl
is_listed-append (p ∷ ps) qs path = ground (arith, is_listed-append ps qs path)

abbrev is_left_out : List Text → Text → Bool
is_left_out custom path = is_shadowed custom path || is_listed custom path

found_or_not :
    (x listed_later : Bool) (F : Bool)
    → F ≡ (listed_later && not x)
    → (x ≡ true → F ≡ not x) × (x ≡ false → true ≡ not x)
found_or_not x listed_later F e = (λ h. ground (arith, e, h), λ h. ground (arith, h))

fresh_paths-listed :
    (custom baked : List Text) (path : Text)
    → is_listed (fresh_paths custom baked) path
      ≡ (is_listed baked path && not (is_left_out custom path))
unfolding fresh_paths is_listed
fresh_paths-listed custom [] path = refl
fresh_paths-listed custom (p ∷ baked) path = elim (Bool-cases (same p path)) [
  | inl hit ↦ rw hit (
      subst
        (λ x.
          any (λ c. same c path)
            (if is_left_out custom x
              then fresh_paths custom baked
              else p ∷ fresh_paths custom baked)
          ≡ not (is_left_out custom path))
        (sym (same-eq p path hit))
        (if-rule (λ t. any (λ c. same c path) t ≡ not (is_left_out custom path))
          (is_left_out custom path) (found_or_not _ _ _ (fresh_paths-listed custom baked path)).0
          λ h. rw hit ((found_or_not _ _ _ (fresh_paths-listed custom baked path)).1 h)))
  | inr miss ↦ rw miss (
      if-rule
        (λ t. any (λ c. same c path) t ≡ (is_listed baked path && not (is_left_out custom path)))
        (is_left_out custom p) (λ _. fresh_paths-listed custom baked path)
        λ _. rw miss (fresh_paths-listed custom baked path))
]

either_way : (c b s : Bool) → (c || (b && not (s || c))) ≡ (c || (b && not s))
either_way c b s = ground arith

merged-listed :
    (extra_paths : List (Option Text)) (baked : List Text) (path : Text)
    → is_listed (merge_addon_paths extra_paths baked) path ≡ (
        is_listed (custom_paths extra_paths) path
        || (is_listed baked path && not (is_shadowed (custom_paths extra_paths) path)))
unfolding merge_addon_paths
merged-listed extra_paths baked path =
    is_listed-append (custom_paths extra_paths) (fresh_paths (custom_paths extra_paths) baked) path
    ∙ ap (λ x. is_listed (custom_paths extra_paths) path || x)
        (fresh_paths-listed (custom_paths extra_paths) baked path)
    ∙ either_way _ _ _

-- Both paths, without the slashes at their ends, have two components or more, of which the last two
-- are the same.
abbrev pub SharesEnd : Text → Text → Type 0
SharesEnd p q =
    (above above' : List Text) × (a b : Text) × (split_path (without_last_slashes p)
      ≡ above ++ a ∷ b ∷ [])
    × (split_path (without_last_slashes q) ≡ above' ++ a ∷ b ∷ [])

last_two-append : (above : List Text) (a b : Text) → last_two (above ++ a ∷ b ∷ []) ≡ a ∷ b ∷ []
unfolding last_two
last_two-append [] a b = refl
last_two-append (x ∷ []) a b = refl
last_two-append (x ∷ y ∷ []) a b = refl
last_two-append (x ∷ y ∷ z ∷ above) a b = last_two-append (y ∷ z ∷ above) a b

ends_with_two :
    (parts : List Text)
    → has_two (last_two parts) ≡ true
    → (above : List Text) × (a b : Text) × (parts ≡ above ++ a ∷ b ∷ [])
      × (last_two parts ≡ a ∷ b ∷ [])
unfolding last_two
ends_with_two [] h = ground (arith, h)
ends_with_two (x ∷ []) h = ground (arith, h)
ends_with_two (a ∷ b ∷ []) h = ([], a, b, refl, refl)
ends_with_two (x ∷ b ∷ c ∷ parts) h =
    let (above, a, z, e, k) = ends_with_two (b ∷ c ∷ parts) h in
    (x ∷ above, a, z, ap (λ t. x ∷ t) e, k)

same_parts-eq : (p q : List Text) → same_parts p q ≡ true → p ≡ q
unfolding same_parts
same_parts-eq [] [] h = refl
same_parts-eq [] (b ∷ q) h = ground (arith, h)
same_parts-eq (a ∷ p) [] h = ground (arith, h)
same_parts-eq (a ∷ p) (b ∷ q) h = ground (arith, h, same-eq a b, same_parts-eq p q)

same_parts_refl : (p : List Text) → same_parts p p ≡ true
unfolding same_parts
same_parts_refl [] = refl
same_parts_refl (a ∷ p) = rw (same_refl a, same_parts_refl p) refl

abbrev shadows : Text → Text → Bool
shadows c path = has_two (fingerprint c) && same_parts (fingerprint c) (fingerprint path)

shadows-SharesEnd : (c path : Text) → shadows c path ≡ true → SharesEnd c path
unfolding fingerprint
shadows-SharesEnd c path h =
    let parts = split_path (without_last_slashes c) in
    let parts' = split_path (without_last_slashes path) in
    let same_end = same_parts-eq (last_two parts) (last_two parts') (second _ _ h) in
    let (above, a, b, e, k) = ends_with_two parts (first _ _ h) in
    let (above', a', b', e', k') =
      ends_with_two parts' (subst (λ t. has_two t ≡ true) same_end (first _ _ h)) in
    (above, above', a, b, e, e' ∙ ap (λ t. above' ++ t) (sym k' ∙ sym same_end ∙ k))
  where
    first : (x y : Bool) → x && y ≡ true → x ≡ true
    first x y e = ground (arith, e)

    second : (x y : Bool) → x && y ≡ true → y ≡ true
    second x y e = ground (arith, e)

SharesEnd-shadows : (c path : Text) → SharesEnd c path → shadows c path ≡ true
unfolding fingerprint
SharesEnd-shadows c path (above, above', a, b, e, e') =
    rw (e, e', last_two-append above a b, last_two-append above' a b, same_parts_refl (a ∷ b ∷ []))
      refl

abbrev pub AreApart : List Text → Text → Type 0
AreApart custom path = All (λ c. ¬ SharesEnd c path) custom

shadowed-AreApart :
    (custom : List Text) (path : Text)
    → (is_shadowed custom path ≡ false → AreApart custom path)
      × (AreApart custom path → is_shadowed custom path ≡ false)
unfolding is_shadowed
shadowed-AreApart [] path = (λ _. tt, λ _. refl)
shadowed-AreApart (c ∷ custom) path =
    let (to, from) = shadowed-AreApart custom path in
    (
      λ h. (λ e. clash _ _ (SharesEnd-shadows c path e) h, to (right_false _ _ h)),
      λ k. both_false _ _ (not_true _ λ h. k.0 (shadows-SharesEnd c path h)) (from k.1),
    )
  where
    clash : (x y : Bool) → x ≡ true → x || y ≡ false → ⊥
    clash x y e h = ground (arith, e, h)

    right_false : (x y : Bool) → x || y ≡ false → y ≡ false
    right_false x y h = ground (arith, h)

    both_false : (x y : Bool) → x ≡ false → y ≡ false → x || y ≡ false
    both_false x y h k = ground (arith, h, k)

    not_true : (x : Bool) → ¬ (x ≡ true) → x ≡ false
    not_true true n = absurd (n refl)
    not_true false n = refl

found :
    {P : Type 0} (c b s : Bool)
    → (c || (b && not s)) ≡ true
    → (s ≡ false → P)
    → (c ≡ true) ⊎ ((b ≡ true) × P)
found true b s h k = inl refl
found false true false h k = inr (refl, k refl)
found false true true h k = ground (arith, h)
found false false s h k = ground (arith, h)

listed :
    {P : Type 0} (c b s : Bool)
    → (P → s ≡ false)
    → (c ≡ true) ⊎ ((b ≡ true) × P)
    → (c || (b && not s)) ≡ true
listed c b s k (inl h) = ground (arith, h)
listed c b s k (inr (h, apart)) = ground (arith, h, k apart)

-- The merged list holds a path just when it is one of the tenant's, or one of the image's that shares
-- its last two components with none of the tenant's.
pub merge_addon_paths-listed :
    (extra_paths : List (Option Text)) (baked : List Text) (path : Text)
    → (is_listed (merge_addon_paths extra_paths baked) path ≡ true) ↔ (
        (is_listed (custom_paths extra_paths) path ≡ true)
        ⊎ ((is_listed baked path ≡ true) × AreApart (custom_paths extra_paths) path))
merge_addon_paths-listed extra_paths baked path =
    let (to, from) = shadowed-AreApart (custom_paths extra_paths) path in
    let e = merged-listed extra_paths baked path in
    (λ h. found _ _ _ (sym e ∙ h) to, λ h. e ∙ listed _ _ _ from h)
