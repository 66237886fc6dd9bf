-- ===== src/TenantDb/Apart.antt =====
-- The names and the directories of two tenants have nothing in common.
use Prim.Native.Char.{code}
use Prim.Native.String.{◌++◌ as str_append}
use mathlib.Core.List.{append-nil, append_assoc, append_cancel_left}
use text.Mathlib.TextEquality.{Char-path}
use text.Mathlib.TextLemmas.{
  append_assoc as str_assoc, append_cancel_left as str_cancel_left,
  append_cancel_right as str_cancel_right, cons-append, nil-append,
}
use relay_agent.Base.{String, Text, [], ap, arith, false, refl, sym, true, ℕ, ◌++◌, ◌∙◌, ◌∷◌, ◌≡◌}
use relay_agent.Docker.{codes}
use relay_agent.Slug.{is_tenant_slug}
use relay_agent.Slug.Component.{has, has-shape}
use relay_agent.TenantDb.Lifecycle.{host_dir}
use relay_agent.TenantDb.Names.{names}
use relay_agent.TenantDb.Owned.{
  Below, OwnName, OwnVolume, below, current_name, data_dir, itself, previous_name, scratch_dir,
  wal_dir,
}

codes-eq : (s t : String) → codes s ≡ codes t → s ≡ t
codes-eq String.[] String.[] e = refl
codes-eq String.[] (String.◌∷◌ d t) e = cc
codes-eq (String.◌∷◌ c s) String.[] e = cc
codes-eq (String.◌∷◌ c s) (String.◌∷◌ d t) e =
    let same_char = Char-path c d (cc) in
    let same_rest = codes-eq s t (cc) in rw same_char (rw same_rest refl)

pub codes-append : (s t : String) → codes (str_append s t) ≡ codes s ++ codes t
codes-append String.[] t = ap codes (nil-append t)
codes-append (String.◌∷◌ c s) t =
    ap codes (cons-append c s t) ∙ ap (λ r. code c ∷ r) (codes-append s t)

-- Equal names, read as code points
same_codes :
    (p q a b : String) → str_append p a ≡ str_append q b → codes p ++ codes a ≡ codes q ++ codes b
same_codes p q a b e = sym (codes-append p a) ∙ ap codes e ∙ codes-append q b

has-append_right : (c : ℕ) (s t : Text) → has c t ≡ true → has c (s ++ t) ≡ true
unfolding has
has-append_right c [] t h = h
has-append_right c (d ∷ s) t h = ground (arith, has-append_right c s t)

-- Where the names of the volumes differ
abbrev seventh : Text → ℕ
seventh (_ ∷ _ ∷ _ ∷ _ ∷ _ ∷ _ ∷ c ∷ _) = c
seventh _ = 0

-- No slug holds an underscore or a slash.
slug-has_underscore : (s : String) → is_tenant_slug (codes s) ≡ true → has b'_' (codes s) ≡ false
unfolding is_tenant_slug
slug-has_underscore s h = has-shape _ b'_' refl refl (codes s) refl h

slug-has_slash : (s : String) → is_tenant_slug (codes s) ≡ true → has b'/' (codes s) ≡ false
unfolding is_tenant_slug
slug-has_slash s h = has-shape _ b'/' refl refl (codes s) refl h

not_old : (a b : String) → is_tenant_slug (codes a) ≡ true → a ≡ str_append b "_old" → ⊥
unfolding has
not_old a b h e =
    let with_end = has-append_right b'_' (codes b) (codes "_old") refl in
    let with_underscore = ap (has b'_') (ap codes e ∙ codes-append b "_old") ∙ with_end in
    cc (slug-has_underscore a h, with_underscore)

-- Texts that are empty or begin with a slash
abbrev Continues : Text → Type 0
Continues [] = Unit
Continues (c ∷ s) = c ≡ b'/'

first_component :
    (a b x y : Text)
    → has b'/' a ≡ false
    → has b'/' b ≡ false
    → Continues x
    → Continues y
    → a ++ x ≡ b ++ y
    → a ≡ b
unfolding has
first_component [] [] x y p q k l e = refl
first_component [] (d ∷ b) [] y p q k l e = ground (arith, e)
first_component [] (d ∷ b) (c ∷ x) y p q k l e = ground (arith, e, q, k)
first_component (c ∷ a) [] x [] p q k l e = ground (arith, e)
first_component (c ∷ a) [] x (d ∷ y) p q k l e = ground (arith, e, p, l)
first_component (c ∷ a) (d ∷ b) x y p q k l e =
    let same_rest =
      first_component a b x y (ground (arith, p)) (ground (arith, q)) k l (ground (arith, e)) in
    let same_char : c ≡ d = ground (arith, e) in rw same_char (rw same_rest refl)

Below-path :
    (data_root : Text) (slug : String) (p : Text)
    → Below data_root slug p
    → (x : Text) × (p ≡ (data_root ++ codes "/_tenantdb/") ++ (codes slug ++ x)) × Continues x
unfolding host_dir
Below-path data_root slug p itself =
    ([], ap (λ r. (data_root ++ codes "/_tenantdb/") ++ r) (sym (append-nil (codes slug))), tt)
Below-path data_root slug p (below rest _) = (
  b'/' ∷ rest,
  append_assoc (host_dir data_root slug) (codes "/") rest
      ∙ append_assoc (data_root ++ codes "/_tenantdb/") (codes slug) (b'/' ∷ rest),
  refl,
)

module _ (a b : String) (slug_a : is_tenant_slug (codes a) ≡ true)
    (slug_b : is_tenant_slug (codes b) ≡ true) where
  OwnName-apart : {n m : String} → OwnName a n → OwnName b m → n ≡ m → a ≡ b
  unfolding names
  OwnName-apart current_name current_name e = str_cancel_left "berth_pg_" a b e
  OwnName-apart current_name previous_name e = absurd (
      not_old a b slug_a
        (str_cancel_left "berth_pg_" a (str_append b "_old") (e ∙ str_assoc "berth_pg_" b "_old")))
  OwnName-apart previous_name current_name e = absurd (
      not_old b a slug_b (
        sym (
          str_cancel_left "berth_pg_" (str_append a "_old") b
            (sym (str_assoc "berth_pg_" a "_old") ∙ e))))
  OwnName-apart previous_name previous_name e =
      str_cancel_left "berth_pg_" a b
        (str_cancel_right (str_append "berth_pg_" a) (str_append "berth_pg_" b) "_old" e)

  OwnVolume-apart : {n m : String} → OwnVolume a n → OwnVolume b m → n ≡ m → a ≡ b
  unfolding names
  OwnVolume-apart data_dir data_dir e = str_cancel_left "berth_pgdata_" a b e
  OwnVolume-apart scratch_dir scratch_dir e = str_cancel_left "berth_scratch_" a b e
  OwnVolume-apart wal_dir wal_dir e = str_cancel_left "berth_wal_" a b e
  OwnVolume-apart data_dir scratch_dir e =
      absurd (omega (arith, ap seventh (same_codes "berth_pgdata_" "berth_scratch_" a b e)))
  OwnVolume-apart data_dir wal_dir e =
      absurd (omega (arith, ap seventh (same_codes "berth_pgdata_" "berth_wal_" a b e)))
  OwnVolume-apart scratch_dir data_dir e =
      absurd (omega (arith, ap seventh (same_codes "berth_scratch_" "berth_pgdata_" a b e)))
  OwnVolume-apart scratch_dir wal_dir e =
      absurd (omega (arith, ap seventh (same_codes "berth_scratch_" "berth_wal_" a b e)))
  OwnVolume-apart wal_dir data_dir e =
      absurd (omega (arith, ap seventh (same_codes "berth_wal_" "berth_pgdata_" a b e)))
  OwnVolume-apart wal_dir scratch_dir e =
      absurd (omega (arith, ap seventh (same_codes "berth_wal_" "berth_scratch_" a b e)))

  Below-apart : (data_root p : Text) → Below data_root a p → Below data_root b p → a ≡ b
  Below-apart data_root p in_a in_b =
      let (x, at_x, k) = Below-path data_root a p in_a in
      let (y, at_y, l) = Below-path data_root b p in_b in
      codes-eq a b (
        first_component (codes a) (codes b) x y (slug-has_slash a slug_a) (slug-has_slash b slug_b)
          k l (append_cancel_left _ _ _ (sym at_x ∙ at_y)))

  -- Where two tenants' slugs, both accepted, differ: no name of a container, of a network or of a
  -- volume, and no path in a directory, belongs to both.
  pub Owned-apart :
      (data_root : Text)
      → ((n : String) → OwnName a n → OwnName b n → a ≡ b)
        × ((names a).network ≡ (names b).network → a ≡ b)
        × ((v : String) → OwnVolume a v → OwnVolume b v → a ≡ b)
        × ((p : Text) → Below data_root a p → Below data_root b p → a ≡ b)
  unfolding names
  Owned-apart data_root = (
    λ n x y. OwnName-apart x y refl,
    λ e. str_cancel_left "berth_t_" a b e,
    λ v x y. OwnVolume-apart x y refl,
    λ p x y. Below-apart data_root p x y,
  )
