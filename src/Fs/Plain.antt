-- ===== src/Fs/Plain.antt =====
-- Components that stay below the directory they start from.
-- A component that names an entry of its directory
use relay_agent.Base.{
  All, Bool, List, Text, [], arith, false, if-rule, not, refl, same, same-eq, true, ◌&&◌, ◌∷◌, ◌≡◌,
}
use relay_agent.Fs.Lexical.{enter, is_skipped, normalise, same_path, up}

unfoldable pub is_plain : Text → Bool
is_plain c = not (is_skipped c) && not (same c (b'.' ∷ b'.' ∷ []))

enter-Plain :
    (p : List Text) (c : Text)
    → All (λ x. is_plain x ≡ true) p
    → All (λ x. is_plain x ≡ true) (enter p c)
unfolding is_plain
enter-Plain p c h =
    if-rule (All (λ x. is_plain x ≡ true)) (is_skipped c) (λ _. h)
      λ stays.
        if-rule (All (λ x. is_plain x ≡ true)) (same c (b'.' ∷ b'.' ∷ [])) (λ _. above p h)
          λ down. (both _ _ stays down, h)
  where
    above : (q : List Text) → All (λ x. is_plain x ≡ true) q → All (λ x. is_plain x ≡ true) (up q)
    above [] k = tt
    above (x ∷ q) (_, k) = k

    both : (a b : Bool) → a ≡ false → b ≡ false → not a && not b ≡ true
    both a b k l = ground (arith, k, l)

pub normalise-Plain :
    (p cs : List Text)
    → All (λ x. is_plain x ≡ true) p
    → All (λ x. is_plain x ≡ true) (normalise p cs)
unfolding normalise
normalise-Plain p [] h = h
normalise-Plain p (c ∷ cs) h = normalise-Plain (enter p c) cs (enter-Plain p c h)

pub same_path-eq : (p q : List Text) → same_path p q ≡ true → p ≡ q
unfolding same_path
same_path-eq [] [] h = refl
same_path-eq [] (b ∷ q) h = ground (arith, h)
same_path-eq (a ∷ p) [] h = ground (arith, h)
same_path-eq (a ∷ p) (b ∷ q) h = ground (arith, h, same-eq a b, same_path-eq p q)
