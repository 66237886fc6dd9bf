-- ===== src/Fs/Transfer.antt =====
-- Bytes that are written to a file in pieces.
use mathlib.Core.List.{append-nil}
use relay_agent.Base.{
  Bool, List, Option, Text, [], ap, arith, false, none, refl, some, subst, sym, true, ℕ, ◌++◌, ◌∙◌,
  ◌∷◌, ◌≡◌,
}
use relay_agent.Fs.Cursor.{below}
use relay_agent.Fs.Disk.{Disk, Io, Outcome, bad_value, continue, done, os_failed, symlink, ◌>>=◌}
use relay_agent.Fs.Lawful.{IsLawful, kept}
use relay_agent.Fs.Paths.{OpenResult, is_symlink, opens, os_error, relative_parts, value_error}
use relay_agent.Fs.Writes.{
  at_parent, enter_all, make_part, on_parts, open_file, open_part, open_root, opened_as, store,
  turn, walk_root, write_bytes, write_file, written,
}

continue-done {ℓ κ} :
    {S : Type 0} {A : Type ℓ} {B : Type κ} (f : A → Io S B) (o : Outcome A) (s : S) {b : B}
    → (continue f o s).0 ≡ done b
    → (a : A) × (o ≡ done a) × (continue f o s ≡ f a s)
continue-done f (done a) s h = (a, refl, refl)
continue-done f bad_value s h = ground (arith, h)
continue-done f symlink s h = ground (arith, h)
continue-done f os_failed s h = ground (arith, h)

-- A chain that ends well has gone well so far.
pub >>=-done {ℓ κ} :
    {S : Type 0} {A : Type ℓ} {B : Type κ} (m : Io S A) (f : A → Io S B) (s : S) {b : B}
    → ((m >>= f) s).0 ≡ done b
    → (a : A) × ((m s).0 ≡ done a) × ((m >>= f) s ≡ f a (m s).1) × ((f a (m s).1).0 ≡ done b)
unfolding ◌>>=◌
>>=-done m f s h =
    let (a, e, same_run) = continue-done f (m s).0 (m s).1 h in
    (a, e, same_run, ap (λ r. r.0) (sym same_run) ∙ h)

-- What holds of the disk throughout a chain, however that ends.
>>=-keeps {ℓ κ μ} :
    {S : Type 0} {A : Type ℓ} {B : Type κ} (P : S → Type μ) (m : Io S A) (f : A → Io S B) (s : S)
    → ((s : S) → P s → P (m s).1)
    → ((a : A) (s : S) → P s → P (f a s).1)
    → P s
    → P ((m >>= f) s).1
unfolding ◌>>=◌
>>=-keeps {S} {A} P m f s first then_f h = after (m s).0 (m s).1 (first s h)
  where
    after : (o : Outcome A) (s : S) → P s → P (continue f o s).1
    after (done a) s h = then_f a s h
    after bad_value s h = h
    after symlink s h = h
    after os_failed s h = h

turn-turn : (xs ys zs : List Text) → turn (turn xs ys) zs ≡ turn ys (xs ++ zs)
turn-turn [] ys zs = refl
turn-turn (x ∷ xs) ys zs = turn-turn xs (x ∷ ys) zs

opened_as-opens {ℓ} :
    {A : Type ℓ} (a : A) (o : OpenResult) {b : A} → opened_as a o ≡ done b → (o ≡ opens) × (a ≡ b)
opened_as-opens a opens h = (refl, ground (arith, h))
opened_as-opens a value_error h = ground (arith, h)
opened_as-opens a is_symlink h = ground (arith, h)
opened_as-opens a os_error h = ground (arith, h)

written-true : (b : Bool) → written b ≡ done tt → b ≡ true
written-true true h = refl
written-true false h = ground (arith, h)

module _ (d : Disk) where
  abbrev enter_below : Option ℕ → List Text → List Text → Io d.State (List Text)
  enter_below mode parts below = enter_all d mode below parts

  -- A walk that ends well ends below all the components that it was given.
  enter_all-reached :
      (mode : Option ℕ) (at parts : List Text) (s : d.State) {below : List Text}
      → (enter_all d mode at parts s).0 ≡ done below
      → turn parts at ≡ below
  unfolding enter_all open_part
  enter_all-reached mode at [] s h = ground (arith, h)
  enter_all-reached mode at (part ∷ parts) s {below} h =
      let (_, _, _, opening) =
        >>=-done (make_part d mode at part) (λ _. open_part d at part >>= enter_below mode parts) s
          h in
      let (b, well_opened, _, walk) =
        >>=-done (open_part d at part) (enter_below mode parts) (make_part d mode at part s).1
          opening in
      let (_, same_dir) = opened_as-opens (part ∷ at) _ well_opened in
      subst (λ x. turn parts x ≡ below) (sym same_dir) (enter_all-reached mode b parts _ walk)

  root_reached :
      (mode : Option ℕ) (dirs : List Text) (s : d.State) {at : List Text}
      → (walk_root d mode dirs s).0 ≡ done at
      → dirs ≡ at
  unfolding walk_root
  root_reached mode dirs s h =
      let (_, _, _, walk) = >>=-done (open_root d) (λ _. enter_all d mode [] (turn dirs [])) s h in
      sym (append-nil dirs)
      ∙ sym (turn-turn dirs [] [])
      ∙ enter_all-reached mode [] (turn dirs []) s walk

module _ (d : Disk) (content : d.State → List Text → Text → Option (List ℕ))
    (law : IsLawful d content) where
  module _ (x : List Text) (name : Text) (old : List ℕ) where
    abbrev Holds : d.State → Type 0
    Holds s = content s x name ≡ some old

    make_part-Holds :
        (mode : Option ℕ) (at : List Text) (part : Text) (s : d.State)
        → Holds s
        → Holds (make_part d mode at part s).1
    unfolding make_part
    make_part-Holds none at part s h = h
    make_part-Holds (some mode) at part s h = law.content-make_dir s x at name part mode old h

    enter_all-Holds :
        (mode : Option ℕ) (at parts : List Text) (s : d.State)
        → Holds s
        → Holds (enter_all d mode at parts s).1
    unfolding enter_all open_part
    enter_all-Holds mode at [] s h = h
    enter_all-Holds mode at (part ∷ parts) s h =
        >>=-keeps Holds (make_part d mode at part)
          (λ _. open_part d at part >>= enter_below d mode parts) s
          (λ s k. make_part-Holds mode at part s k)
          (λ _ s k.
            >>=-keeps Holds (open_part d at part) (enter_below d mode parts) s (λ _ k. k)
              (λ b s k. enter_all-Holds mode b parts s k) k)
          h

    pub walk_root-Holds :
        (mode : Option ℕ) (dirs : List Text) (s : d.State)
        → Holds s
        → Holds (walk_root d mode dirs s).1
    unfolding walk_root open_root
    walk_root-Holds mode dirs s h =
        >>=-keeps Holds (open_root d) (λ _. enter_all d mode [] (turn dirs [])) s (λ _ k. k)
          (λ _ s k. enter_all-Holds mode [] (turn dirs []) s k) h

  content-store :
      (append : Bool) (at : List Text) (name : Text) (bytes : List ℕ) (s : d.State)
      → (store d append (some bytes) at name s).0 ≡ done tt
      → content (store d append (some bytes) at name s).1 at name
        ≡ some (kept append (content s at name) ++ bytes)
  unfolding store
  content-store append at name bytes s h =
      let (_, well_opened, same_run, wrote) =
        >>=-done (open_file d append at name) (λ _. write_file d at name bytes) s h in
      let (is_open, _) = opened_as-opens tt _ well_opened in
      ap (λ r. content r.1 at name) same_run
      ∙ law.content-write _ at name _ bytes (law.content-open_write s at name append is_open)
          (written-true _ wrote)

  -- Where the parts of a path are known, a write that ends well leaves the file's bytes, as far as
  -- they are kept, and the new ones behind them.
  content-walk_and_store :
      (append : Bool) (dirs : List Text) (name : Text) (bytes : List ℕ) (s : d.State)
      → ((walk_root d (some 511) dirs >>= λ at. store d append (some bytes) at name) s).0 ≡ done tt
      → content
          ((walk_root d (some 511) dirs >>= λ at. store d append (some bytes) at name) s).1
          dirs
          name
        ≡ some (kept append (content (walk_root d (some 511) dirs s).1 dirs name) ++ bytes)
  content-walk_and_store append dirs name bytes s h =
      let (at, walked, same_run, stored) =
        >>=-done (walk_root d (some 511) dirs) (λ at. store d append (some bytes) at name) s h in
      let e = root_reached d (some 511) dirs s walked in
      let stored' =
        subst
          (λ x. (store d append (some bytes) x name (walk_root d (some 511) dirs s).1).0 ≡ done tt)
          (sym e) stored in
      ap (λ r. content r.1 dirs name) same_run
      ∙ ap
          (λ x.
            content (store d append (some bytes) x name (walk_root d (some 511) dirs s).1).1 dirs
              name)
          (sym e)
      ∙ content-store append dirs name bytes _ stored'

  module _ (root input_root : List Text) (raw name : Text) (dirs : List Text)
      (named : relative_parts root input_root raw ≡ some (name ∷ dirs)) where
    write_bytes-at :
        (bytes : List ℕ) (append : Bool) (s : d.State)
        → write_bytes d root input_root raw (some bytes) append s
          ≡ (walk_root d (some 511) dirs >>= λ at. store d append (some bytes) at name) s
    unfolding write_bytes
    write_bytes-at bytes append s =
        ap (λ o. on_parts d (at_parent d (some 511) (store d append (some bytes))) o s) named

    pub content-write_bytes :
        (bytes : List ℕ) (append : Bool) (s : d.State)
        → (write_bytes d root input_root raw (some bytes) append s).0 ≡ done tt
        → content (write_bytes d root input_root raw (some bytes) append s).1 dirs name
          ≡ some (kept append (content (walk_root d (some 511) dirs s).1 dirs name) ++ bytes)
    content-write_bytes bytes append s h =
        ap (λ r. content r.1 dirs name) (write_bytes-at bytes append s)
        ∙ content-walk_and_store append dirs name bytes s
            (ap (λ r. r.0) (sym (write_bytes-at bytes append s)) ∙ h)
