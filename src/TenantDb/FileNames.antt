-- ===== src/TenantDb/FileNames.antt =====
-- The names of files that the commands accept or make lead nowhere upwards.
use Prim.Native.String.{◌++◌ as str_append}
use relay_agent.Base.{
  Bool, Bool-cases, Option, String, Text, [], all, ap, arith, false, inl, inr, none, not, refl,
  same, same-eq, some, subst, sym, true, ℕ, ◌&&◌, ◌++◌, ◌==◌, ◌||◌, ◌∙◌, ◌∷◌, ◌≡◌, ◌≢◌,
}
use relay_agent.Docker.{codes}
use relay_agent.Fs.Cursor.{has_char}
use relay_agent.Fs.Upward.{NoParent, NoTwoDots, NoTwoDots-NoParent, name-NoParent}
use relay_agent.Slug.{before_end, is_ident, is_word_char}
use relay_agent.Slug.Component.{has}
use relay_agent.TenantDb.Apart.{codes-append}
use relay_agent.TenantDb.OpPath.{strip_prefix-eq}
use relay_agent.TenantDb.Owned.{IsEntryName}
use relay_agent.TenantDb.Patterns.{
  has_id, has_two_dots, is_exportable, is_hex_digit, is_restore_file, last_part, span, strip_prefix,
}

has_char-has : (c : ℕ) (s : Text) → has_char c s ≡ has c s
unfolding has_char has
has_char-has c [] = refl
has_char-has c (d ∷ s) = ground (arith, has_char-has c s)

-- A name without a slash that is not `..`
pub plain-NoParent : (n : Text) → has b'/' n ≡ false → n ≢ b'.' ∷ b'.' ∷ [] → NoParent n
plain-NoParent n h k = name-NoParent n (has_char-has b'/' n ∙ h) k

has-append : (c : ℕ) (s t : Text) → has c s ≡ false → has c t ≡ false → has c (s ++ t) ≡ false
unfolding has
has-append c [] t h k = k
has-append c (d ∷ s) t h k = ground (arith, h, has-append c s t)

-- The random part of a dump's name, which has no slash
pub dump_name-NoParent :
    (token : String)
    → has b'/' (codes token) ≡ false
    → NoParent (codes (str_append "dump_" (str_append token ".pgdump")))
unfolding has
dump_name-NoParent token h =
    subst NoParent (sym (codes-append "dump_" (str_append token ".pgdump"))) (
      plain-NoParent _
        (has-append b'/' (codes "dump_") (codes (str_append token ".pgdump")) refl (
          subst (λ t. has b'/' t ≡ false) (sym (codes-append token ".pgdump"))
            (has-append b'/' (codes token) (codes ".pgdump") h refl)))
        (λ e. ground (arith, e)))

-- What `$` matches before, and the newline
has-before_end :
    (c : ℕ) (s : Text) → (10 == c) ≡ false → has c (before_end s) ≡ false → has c s ≡ false
unfolding has before_end
has-before_end c [] n h = refl
has-before_end c (d ∷ []) n h = ground (arith, n, h)
has-before_end c (d ∷ e ∷ s) n h = ground (arith, n, h, has-before_end c (e ∷ s))

all-has : (p : ℕ → Bool) (c : ℕ) (s : Text) → p c ≡ false → all p s ≡ true → has c s ≡ false
unfolding has
all-has p c [] n h = refl
all-has p c (d ∷ s) n h = ground (arith, n, h, all-has p c s)

and_second : (x y : Bool) → x && y ≡ true → y ≡ true
and_second x y h = ground (arith, h)

and_first : (x y : Bool) → x && y ≡ true → x ≡ true
and_first x y h = ground (arith, h)

-- A name that `_SAFE_RE` takes holds no slash, and does not begin with a dot.
pub ident-NoParent : (s : Text) → is_ident s ≡ true → NoParent s
unfolding is_ident
ident-NoParent s h =
    plain-NoParent s
      (has-before_end b'/' s refl
        (all-has is_word_char b'/' (before_end s) refl (and_second _ _ h)))
      (λ e. clash (subst (λ t. all is_word_char (before_end t) ≡ true) e (and_second _ _ h)))
  where
    clash : all is_word_char (before_end (b'.' ∷ b'.' ∷ [])) ≡ true → ⊥
    clash k = ground (arith, k)

span-has :
    (p : ℕ → Bool) (c : ℕ) (s : Text) → p c ≡ false → has c (span p s).1 ≡ false → has c s ≡ false
unfolding has span
span-has p c [] n h = refl
span-has p c (d ∷ s) n h = elim (Bool-cases (p d)) [
  | inl e ↦ both (other e) (span-has p c s n (rw e at h))
  | inr e ↦ rw e at h
]
  where
    other : p d ≡ true → (d == c) ≡ false
    other e = elim (Bool-cases (d == c)) [
      | inr f ↦ f
      | inl f ↦
          let g : d ≡ c = ground (arith, f) in
          let k : true ≡ false = sym e ∙ ap p g ∙ n in absurd (ground (arith, k))
    ]

    both : {x y : Bool} → x ≡ false → y ≡ false → x || y ≡ false
    both e f = ground (arith, e, f)

has_id-has : (s : Text) → has_id (some s) ≡ true → has b'/' s ≡ false
unfolding has
has_id-has s h = span-has is_hex_digit b'/' s refl (
    has-before_end b'/' (span is_hex_digit s).1 refl
      (subst (λ t. has b'/' t ≡ false) (sym (same-eq _ _ (and_second _ _ h))) refl))

-- A file that `restore` takes
pub restore_file-NoParent : (s : Text) → is_restore_file s ≡ true → NoParent s
unfolding is_restore_file has
restore_file-NoParent s h = elim (Bool-cases (same s (codes "restore.pgdump"))) [
  | inl e ↦
      subst NoParent (sym (same-eq s (codes "restore.pgdump") e))
        (plain-NoParent (codes "restore.pgdump") refl (λ k. ground (arith, k)))
  | inr e ↦
      with_id (strip_prefix (codes "restore_") s) (strip_prefix-eq (codes "restore_") s)
        (or_second _ _ e h)
]
  where
    or_second : (x y : Bool) → x ≡ false → x || y ≡ true → y ≡ true
    or_second x y e k = ground (arith, e, k)

    with_id :
        (o : Option Text)
        → ((r : Text) → o ≡ some r → s ≡ codes "restore_" ++ r)
        → has_id o ≡ true
        → NoParent s
    with_id none k q = ground (arith, q)
    with_id (some r) k q = subst NoParent (sym (k r refl)) (
        plain-NoParent (codes "restore_" ++ r)
          (has-append b'/' (codes "restore_") r refl (has_id-has r q)) (λ x. ground (arith, x)))

last_part-has : (path : Text) → has b'/' (last_part path) ≡ false
unfolding has last_part
last_part-has [] = refl
last_part-has (c ∷ s) = elim (Bool-cases (has b'/' s)) [
  | inl e ↦ rw e (last_part-has s)
  | inr e ↦ elim (Bool-cases (c == b'/')) [
    | inl f ↦ rw (e, f) e
    | inr f ↦ rw (e, f) (rw (e, f) refl)
  ]
]

exportable_name :
    (n : Text) → not (same n (codes ".") || same n (codes "..")) ≡ true → n ≢ b'.' ∷ b'.' ∷ []
unfolding same
exportable_name n k e =
    no_dots (subst (λ t. not (same t (codes ".") || same t (codes "..")) ≡ true) e k)
  where
    no_dots : not (same (codes "..") (codes ".") || same (codes "..") (codes "..")) ≡ true → ⊥
    no_dots h = ground (arith, h)

-- The last part of an exportable path
pub last_part-NoParent : (path : Text) → is_exportable path ≡ true → NoParent (last_part path)
unfolding is_exportable
last_part-NoParent path h =
    plain-NoParent (last_part path) (last_part-has path)
      (exportable_name (last_part path) (and_second _ _ h))

NoTwoDots-has_two_dots : (s : Text) → has_two_dots s ≡ false → NoTwoDots s
unfolding has_two_dots
NoTwoDots-has_two_dots [] h = tt
NoTwoDots-has_two_dots (c ∷ []) h = tt
NoTwoDots-has_two_dots (c ∷ d ∷ s) h = (first _ _ h, NoTwoDots-has_two_dots (d ∷ s) (second _ _ h))
  where
    first : (x y : Bool) → x || y ≡ false → x ≡ false
    first x y k = ground (arith, k)

    second : (x y : Bool) → x || y ≡ false → y ≡ false
    second x y k = ground (arith, k)

-- What is left of a path without two dots in a row
after-NoTwoDots : (s t : Text) → NoTwoDots (s ++ t) → NoTwoDots t
after-NoTwoDots [] t h = h
after-NoTwoDots (c ∷ []) [] h = tt
after-NoTwoDots (c ∷ []) (d ∷ t) h = h.1
after-NoTwoDots (c ∷ x ∷ s) t h = after-NoTwoDots (x ∷ s) t h.1

pub rest-NoParent : (s t r : Text) → has_two_dots (s ++ (t ++ (b'/' ∷ r))) ≡ false → NoParent r
rest-NoParent s t r h = NoTwoDots-NoParent r (
    after-NoTwoDots (b'/' ∷ []) r (
      after-NoTwoDots t (b'/' ∷ r)
        (after-NoTwoDots s (t ++ (b'/' ∷ r)) (NoTwoDots-has_two_dots _ h))))

-- The name of an entry
pub entry-NoParent : (n : Text) → IsEntryName n → NoParent n
entry-NoParent n (h, k) = plain-NoParent n h k
