-- ===== src/Base/Lists.antt =====
-- Lists measured by the native numbers, predicates on all items, and sets of texts as lists.
use Prim.Native.Nat.{ℕ, suc, ◌+◌}
use Prim.Native.String.{String}
use mathlib.Core.Path.{ap, ◌≡◌, refl}
use mathlib.Core.Option.{none, some}
use mathlib.Core.Bool.{Bool, true, false, ◌||◌, ◌&&◌}
use mathlib.Core.List.{List, [], ◌∷◌, ◌++◌}
use native.Mathlib.Omega.{arith}
use text.Mathlib.Text.{◌==◌ as str_eq}
use relay_agent.Base.Tests.{◌==◌, if◌then◌else◌}

module _ {ℓ} {A : Type ℓ} where
  abbrev pub length : List A → ℕ
  length [] = 0
  length (x ∷ xs) = suc (length xs)

  abbrev pub any : (A → Bool) → List A → Bool
  any p [] = false
  any p (x ∷ xs) = p x || any p xs

  abbrev pub all : (A → Bool) → List A → Bool
  all p [] = true
  all p (x ∷ xs) = p x && all p xs

  pub length-append : (xs ys : List A) → length (xs ++ ys) ≡ length xs + length ys
  length-append [] ys = omega arith
  length-append (x ∷ xs) ys = omega (arith, length-append xs ys)

module _ {ℓ κ} {A : Type ℓ} (P : A → Type κ) where
  abbrev pub All : List A → Type κ
  All [] = Unit
  All (x ∷ xs) = P x × All xs

-- Membership of a text in a set, a list whose order and repetitions mean nothing.
unfoldable pub member : String → List String → Bool
member k [] = false
member k (x ∷ xs) = str_eq x k || member k xs

-- `set.discard`
unfoldable pub discard : String → List String → List String
discard k [] = []
discard k (x ∷ xs) = let rest = discard k xs in if str_eq x k then rest else x ∷ rest

pub member-discard_self : (k : String) (xs : List String) → member k (discard k xs) ≡ false
unfolding member discard
member-discard_self k [] = refl
member-discard_self k (x ∷ xs) = ground (arith, member-discard_self k xs)

pub member-discard_of :
    (k j : String) (xs : List String) → member j (discard k xs) ≡ true → member j xs ≡ true
unfolding member discard
member-discard_of k j [] h = h
member-discard_of k j (x ∷ xs) h = ground (arith, member-discard_of k j xs)

pub member-append :
    (k : String) (xs ys : List String) → member k (xs ++ ys) ≡ (member k xs || member k ys)
unfolding member
member-append k [] ys = refl
member-append k (x ∷ xs) ys = ground (arith, member-append k xs ys)

-- A text as the list of its code points.
abbrev pub Text : Type 0
Text = List ℕ

-- Equality of two texts that are lists of code points.
unfoldable pub same : List ℕ → List ℕ → Bool
same [] [] = true
same (a ∷ s) (b ∷ t) = a == b && same s t
same _ _ = false

pub same-eq : (s t : List ℕ) → same s t ≡ true → s ≡ t
unfolding same
same-eq [] [] h = refl
same-eq [] (b ∷ t) h = ground arith
same-eq (a ∷ s) [] h = ground arith
same-eq (a ∷ s) (b ∷ t) h = ground (arith, same-eq s t)

pub same_refl : (s : List ℕ) → same s s ≡ true
unfolding same
same_refl [] = refl
same_refl (a ∷ s) = ground (arith, same_refl s)

pub some-inj {ℓ} : {A : Type ℓ} {a b : A} → some a ≡ some b → a ≡ b
some-inj {a} e = ap (λ o. elim o [ none ↦ a | some x ↦ x ]) e
