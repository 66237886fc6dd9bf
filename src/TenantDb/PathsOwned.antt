-- ===== src/TenantDb/PathsOwned.antt =====
-- `export` and `cleanup` touch only the tenant's own objects and files.
use mathlib.Core.List.{append_assoc}
use relay_agent.Base.{
  All, List, Option, String, Text, [], ap, arith, false, none, refl, some, subst, sym, true, ◌++◌,
  ◌∙◌, ◌∷◌, ◌≡◌,
}
use relay_agent.Docker.{Call, Daemon, codes, extract_into, get_archive, make_dirs, move, remove_dir}
use relay_agent.Docker.Extends.{Makes, Makes-bind, Makes-if, Makes-pure}
use relay_agent.Docker.Objects.Rules.{Makes-ask, Makes-require}
use relay_agent.Docker.Yields.{Makes-after}
use relay_agent.Fs.Upward.{NoParent, slash-NoParent}
use relay_agent.Slug.{is_ident}
use relay_agent.Slug.Component.{has}
use relay_agent.TenantDb.FileNames.{
  entry-NoParent, ident-NoParent, last_part-NoParent, plain-NoParent, rest-NoParent,
}
use relay_agent.TenantDb.Files.{cleanup, delete, export_dir, move_up, unwrap}
use relay_agent.TenantDb.FilesOwned.{
  check_slug-Makes, container_of-Yields, remove_tree_quietly-Makes, unlink_quietly-Makes,
}
use relay_agent.TenantDb.Lifecycle.{host_dir}
use relay_agent.TenantDb.Names.{check_ident}
use relay_agent.TenantDb.OpPath.{is_op_path-Below}
use relay_agent.TenantDb.Owned.{Below, IsEntryName, Owned, below, itself}
use relay_agent.TenantDb.Patterns.{has_two_dots, is_exportable, is_op_path, without_last_slashes}

module _ (d : Daemon) (data_root : Text) (slug : String) where
  abbrev Mine : Call → Type 0
  Mine = Owned d data_root slug

  -- What is written after the tenant's directory and a slash, and leads nowhere upwards
  abbrev Under : Text → Type 0
  Under p = (s : Text) × (p ≡ host_dir data_root slug ++ (b'/' ∷ s)) × NoParent s

  Under-entry : (p n : Text) → Under p → NoParent n → Under (p ++ codes "/" ++ n)
  Under-entry p n (s, e, h) k = (
    s ++ b'/' ∷ n,
    append_assoc p (codes "/") n
        ∙ ap (λ t. t ++ (b'/' ∷ n)) e
        ∙ append_assoc _ (b'/' ∷ s) (b'/' ∷ n),
    slash-NoParent s n h k,
  )

  Under-Below : (p : Text) → Under p → Below data_root slug p
  Under-Below p (s, e, h) =
      subst (Below data_root slug) (append_assoc _ (codes "/") s ∙ sym e) (below s h)

  move_up-Makes :
      (wrapper dest : Text) (entries : List Text)
      → All IsEntryName entries
      → Under wrapper
      → Under dest
      → Makes Mine (move_up d data_root wrapper dest entries)
  unfolding move_up
  move_up-Makes wrapper dest [] _ u v = Makes-pure tt
  move_up-Makes wrapper dest (name ∷ more) (n, ns) u v =
      Makes-bind _ _ (Makes-ask d (move _ _) (entry wrapper u, entry dest v))
        λ _. move_up-Makes wrapper dest more ns u v
    where
      entry : (p : Text) → Under p → Below data_root slug (p ++ codes "/" ++ name)
      entry p w = Under-Below _ (Under-entry p name w (entry-NoParent name n))

  unwrap-Makes :
      (wrapper dest : Text)
      → ((l : List Call) (path : Text) → All IsEntryName (d.entries l path))
      → Under wrapper
      → Under dest
      → Makes Mine (unwrap d data_root wrapper dest)
  unfolding unwrap
  unwrap-Makes wrapper dest named u v = record {
    at = λ log.
        (Makes-if (d.is_dir log wrapper) _ _
            (Makes-bind _ _
              (move_up-Makes wrapper dest (d.entries log wrapper) (named log wrapper) u v)
              λ _. Makes-ask d (remove_dir wrapper) (Under-Below wrapper u))
            (Makes-pure tt)).at
          log;
  }

  pub export_dir-Makes :
      (raw_path : Text) (name : String)
      → ((l : List Call) (path : Text) → All IsEntryName (d.entries l path))
      → Makes Mine (export_dir d data_root slug raw_path name)
  unfolding export_dir check_ident has
  export_dir-Makes raw_path name named =
      Makes-bind _ _ (check_slug-Makes d data_root slug slug) λ _.
        Makes-require (is_exportable (without_last_slashes raw_path)) _ λ exportable.
          Makes-require (is_ident (codes name)) _ λ safe.
            Makes-after _ _ (container_of-Yields d data_root slug) λ h own.
              Makes-bind _ _
                (remove_tree_quietly-Makes d data_root slug _ (Under-Below _ (dest safe)))
                λ _. Makes-bind _ _ (Makes-ask d (make_dirs _) (Under-Below _ (dest safe))) λ _.
                  Makes-bind _ _ (Makes-ask d (get_archive h _) own) λ _.
                    Makes-bind _ _ (Makes-ask d (extract_into _) (Under-Below _ (dest safe))) λ _.
                      Makes-bind _ _
                        (unwrap-Makes _ _ named
                          (Under-entry _ _ (dest safe) (last_part-NoParent _ exportable))
                          (dest safe))
                        λ _. Makes-pure _
    where
      dest :
          is_ident (codes name) ≡ true
          → Under (host_dir data_root slug ++ codes "/export/" ++ codes name)
      dest safe = (
        codes "export/" ++ codes name,
        append_assoc (host_dir data_root slug) (codes "/export/") (codes name),
        slash-NoParent (codes "export") (codes name)
            (plain-NoParent (codes "export") refl (λ e. ground (arith, e)))
            (ident-NoParent (codes name) safe),
      )

  op_path-Under : (rel : Text) → is_op_path slug rel ≡ true → Under (data_root ++ codes "/" ++ rel)
  unfolding host_dir
  op_path-Under rel h =
      let ((rest, e), no_dots) = is_op_path-Below slug rel h in
      (
        rest,
        ap (λ t. data_root ++ codes "/" ++ t) e
            ∙ append_assoc data_root (codes "/") _
            ∙ sym (append_assoc data_root (codes "/_tenantdb/") _)
            ∙ sym (append_assoc _ (codes slug) (b'/' ∷ rest)),
        rest-NoParent (codes "_tenantdb/") (codes slug) rest
            (subst (λ t. has_two_dots t ≡ false) e no_dots),
      )

  delete-Makes : (target : Text) → Under target → Makes Mine (delete d data_root target)
  unfolding delete
  delete-Makes target u = record {
    at = λ log.
        (Makes-if (d.is_dir log target) _ _
            (remove_tree_quietly-Makes d data_root slug target (Under-Below target u))
            (unlink_quietly-Makes d data_root slug target (Under-Below target u))).at
          log;
  }

  pub cleanup-Makes : (rel : Option Text) → Makes Mine (cleanup d data_root slug rel)
  unfolding cleanup
  cleanup-Makes none =
      Makes-bind _ _ (check_slug-Makes d data_root slug slug)
        λ _. remove_tree_quietly-Makes d data_root slug _ itself
  cleanup-Makes (some rel) =
      Makes-bind _ _ (check_slug-Makes d data_root slug slug)
        λ _. Makes-require (is_op_path slug rel) _ λ h. delete-Makes _ (op_path-Under rel h)
