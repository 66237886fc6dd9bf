-- ===== src/Fs/Upward.antt =====
-- Paths that lead nowhere upwards.
use relay_agent.Base.{
  All, Bool-cases, List, Text, [], ap, arith, false, if-rule, inl, inr, refl, subst, sym, ℕ, ◌&&◌,
  ◌++◌, ◌==◌, ◌∙◌, ◌∷◌, ◌≡◌, ◌≢◌,
}
use relay_agent.Fs.Cursor.{before_first, has_char, split_path}
use relay_agent.Fs.Handed.{split-cons, split-name}

-- No component of the path, between its slashes, is `..`.
abbrev pub NoParent : Text → Type 0
NoParent path = All (λ part. part ≢ b'.' ∷ b'.' ∷ []) (split_path path)

abbrev NoneUp : List Text → Type 0
NoneUp = All (λ part. part ≢ b'.' ∷ b'.' ∷ [])

NoneUp-append : (ps qs : List Text) → NoneUp ps → NoneUp qs → NoneUp (ps ++ qs)
NoneUp-append [] qs h k = k
NoneUp-append (p ∷ ps) qs (x, h) k = (x, NoneUp-append ps qs h k)

split-slash : (s t : Text) → split_path (s ++ b'/' ∷ t) ≡ split_path s ++ split_path t
unfolding split_path
split-slash [] t = refl
split-slash (c ∷ s) t = elim (Bool-cases (c == b'/')) [
  | inl e ↦ rw (e, split-slash s t) refl
  | inr e ↦ let (p, ps, q) = split-cons s in rw (e, split-slash s t, q) refl
]

pub slash-NoParent : (s t : Text) → NoParent s → NoParent t → NoParent (s ++ b'/' ∷ t)
slash-NoParent s t h k =
    subst NoneUp (sym (split-slash s t)) (NoneUp-append (split_path s) (split_path t) h k)

-- A name without a slash, other than `..`
pub name-NoParent : (n : Text) → has_char b'/' n ≡ false → n ≢ b'.' ∷ b'.' ∷ [] → NoParent n
name-NoParent n h k = subst NoneUp (sym (split-name n h)) (k, tt)

-- Two dots stand nowhere next to each other.
abbrev pub NoTwoDots : Text → Type 0
NoTwoDots [] = Unit
NoTwoDots (c ∷ []) = Unit
NoTwoDots (c ∷ d ∷ s) = ((c == b'.' && d == b'.') ≡ false) × NoTwoDots (d ∷ s)

-- The first component begins as the path does.
first_dot :
    (d : ℕ) (s p : Text) (ps : List Text) → split_path (d ∷ s) ≡ p ∷ ps → p ≡ b'.' ∷ [] → d ≡ b'.'
unfolding split_path
first_dot d s p ps h e = elim (Bool-cases (d == b'/')) [
  | inl slash ↦
      let k : [] ∷ split_path s ≡ p ∷ ps = rw slash at h in absurd (no_dot (head-eq k ∙ e))
  | inr plain ↦
      let (q, qs, eq) = split-cons s in
      let k : (d ∷ q) ∷ qs ≡ p ∷ ps = rw (plain, eq) at h in ground (arith, head-eq k ∙ e)
]
  where
    head-eq : {x y : Text} {xs ys : List Text} → x ∷ xs ≡ y ∷ ys → x ≡ y
    head-eq {x} k = ap (λ l. elim l [ [] ↦ x | y ∷ _ ↦ y ]) k

    no_dot : ◌≡◌ {A = Text} [] (b'.' ∷ []) → ⊥
    no_dot k = ground (arith, k)

before_first-NoneUp :
    (c d : ℕ) (s : Text) (parts : List Text)
    → split_path (d ∷ s) ≡ parts
    → (c == b'.' && d == b'.') ≡ false
    → NoneUp parts
    → NoneUp (before_first c parts)
before_first-NoneUp c d s [] e h k = ((λ x. ground (arith, x)), tt)
before_first-NoneUp c d s (p ∷ ps) e h k =
    ((λ x. clash (head-eq x) (first_dot d s p ps e (tail-eq x))), k.1)
  where
    head-eq : c ∷ p ≡ b'.' ∷ b'.' ∷ [] → c ≡ b'.'
    head-eq x = ground (arith, x)

    tail-eq : c ∷ p ≡ b'.' ∷ b'.' ∷ [] → p ≡ b'.' ∷ []
    tail-eq x = ground (arith, x)

    clash : c ≡ b'.' → d ≡ b'.' → ⊥
    clash x y = ground (arith, x, y, h)

pub NoTwoDots-NoParent : (s : Text) → NoTwoDots s → NoParent s
unfolding split_path
NoTwoDots-NoParent [] h = ((λ e. ground (arith, e)), tt)
NoTwoDots-NoParent (c ∷ []) h =
    if-rule NoneUp (c == b'/') (λ _. ((λ e. ground (arith, e)), ((λ e. ground (arith, e)), tt)))
      (λ _. ((λ e. ground (arith, e)), tt))
NoTwoDots-NoParent (c ∷ d ∷ s) (x, h) =
    let rest : NoneUp (split_path (d ∷ s)) = NoTwoDots-NoParent (d ∷ s) h in
    if-rule NoneUp (c == b'/') (λ _. ((λ e. ground (arith, e)), rest))
      (λ _. before_first-NoneUp c d s (split_path (d ∷ s)) refl x rest)
