-- ===== src/TenantDb/Files.antt =====
-- agent/commands/tenantdb.py: `dump`, `restore`, `export` and `cleanup`. The random part of a
-- dump's name is an argument.
use Prim.Native.String.{◌++◌ as str_append}
use relay_agent.Base.{List, Option, String, Text, [], if◌then◌else◌, none, some, ℕ, ◌++◌, ◌==◌, ◌∷◌}
use relay_agent.Docker.{
  Action, Daemon, Done, codes, err, exec, extract_into, failed_command, get_archive, make_dirs,
  missing_file, move, ok, pure, put_archive, raise, remove_dir, suppress, unlink, write_file, ◌>>=◌,
  ◌>>◌,
}
use relay_agent.Docker.Objects.{ask, exec_env, finally, require}
use relay_agent.TenantDb.Lifecycle.{container_of, host_dir, remove_tree_quietly}
use relay_agent.TenantDb.Names.{check_ident, check_slug, default_to}
use relay_agent.TenantDb.Patterns.{
  is_exportable, is_op_path, is_restore_file, last_part, without_last_slashes,
}

abbrev pub succeeded : ℕ → Action Done
succeeded code = if code == 0 then pure tt else raise failed_command

module _ (d : Daemon) (data_root : Text) where
  -- The first member of the archive that has been fetched, which has to be a file
  unfoldable pub take_member : Action Done
  take_member log = (if d.archived_file log then ok tt else err failed_command, log)

  -- The `try` body of `dump`
  unfoldable pub fetch_dump : String → ℕ → String → String → ℕ → Action Done
  unfolding host_dir
  fetch_dump slug h name staged code = do
    succeeded code
    ask d (make_dirs (host_dir data_root slug))
    ask d (get_archive h (codes staged))
    take_member
    ask d (write_file (host_dir data_root slug ++ codes "/" ++ codes name))

  unfoldable pub dump : String → String → String → String → Action Text
  unfolding host_dir
  dump token slug pg_user db_name = do
    check_slug slug
    check_ident pg_user
    check_ident db_name
    h ← container_of d slug
    let name = str_append "dump_" (str_append token ".pgdump")
    let staged = str_append "/scratch/" name
    code ← exec d h ("pg_dump" ∷ "-U" ∷ pg_user ∷ "-Fc" ∷ "-f" ∷ staged ∷ db_name ∷ [])
    finally (fetch_dump slug h name staged code)
        (do _ ← exec d h ("rm" ∷ "-f" ∷ staged ∷ []); pure tt)
    pure (codes "_tenantdb/" ++ codes slug ++ codes "/" ++ codes name)

  -- `source.is_file()`, and FileNotFoundError otherwise
  unfoldable pub require_file : Text → Action Done
  require_file path log = (if d.is_file log path then ok tt else err missing_file, log)

  -- `with suppress(OSError): path.unlink()`
  unfoldable pub unlink_quietly : Text → Action Done
  unlink_quietly path = suppress (ask d (unlink path))

  unfoldable pub restore_script : String → String
  restore_script owner =
      str_append
        "cd \"$SCRATCH\"; pg_restore -l \"$FILE\" | grep -v -e ' EXTENSION ' -e ' SCHEMA - public ' > \"$LIST\"; pg_restore -h 127.0.0.1 -U "
        (str_append owner " -d \"$DB\" --no-owner --no-acl -L \"$LIST\" \"$FILE\"")

  unfoldable pub restore : String → String → String → String → Option String → Action Done
  unfolding host_dir is_restore_file
  restore slug owner db_name owner_password file = do
    check_slug slug
    check_ident owner
    check_ident db_name
    let file_name = default_to "restore.pgdump" file
    require (is_restore_file (codes file_name))
    let source = host_dir data_root slug ++ codes "/" ++ codes file_name
    require_file source
    h ← container_of d slug
    let listing = str_append file_name ".list"
    ask d (put_archive h source)
    code ←
        finally
          (exec_env d h ("sh" ∷ "-ec" ∷ restore_script owner ∷ []) (
            ("PGPASSWORD", owner_password)
            ∷ ("DB", db_name)
            ∷ ("SCRATCH", "/scratch")
            ∷ ("FILE", file_name)
            ∷ ("LIST", listing)
            ∷ []))
          (do
            _ ← exec d h (
                "rm"
                ∷ "-f"
                ∷ str_append "/scratch/" file_name
                ∷ str_append "/scratch/" listing
                ∷ [])
            unlink_quietly source)
    succeeded code

  -- The loop of `export` over the entries of the directory that wraps the archive
  unfoldable pub move_up : Text → Text → List Text → Action Done
  move_up wrapper dest [] = pure tt
  move_up wrapper dest (name ∷ more) = do
    ask d (move (wrapper ++ codes "/" ++ name) (dest ++ codes "/" ++ name))
    move_up wrapper dest more

  unfoldable pub unwrap : Text → Text → Action Done
  unwrap wrapper dest log =
      (if d.is_dir log wrapper
          then (do move_up wrapper dest (d.entries log wrapper); ask d (remove_dir wrapper))
          else pure tt)
        log

  unfoldable pub export_dir : String → Text → String → Action Text
  unfolding host_dir without_last_slashes is_exportable last_part
  export_dir slug raw_path name = do
    check_slug slug
    let path = without_last_slashes raw_path
    require (is_exportable path)
    check_ident name
    h ← container_of d slug
    let dest = host_dir data_root slug ++ codes "/export/" ++ codes name
    remove_tree_quietly d dest
    ask d (make_dirs dest)
    ask d (get_archive h path)
    ask d (extract_into dest)
    unwrap (dest ++ codes "/" ++ last_part path) dest
    pure (codes "_tenantdb/" ++ codes slug ++ codes "/export/" ++ codes name)

  unfoldable pub delete : Text → Action Done
  delete target log =
      (if d.is_dir log target then remove_tree_quietly d target else unlink_quietly target) log

  abbrev pub cleanup_path : String → Option Text → Action Done
  cleanup_path slug none = remove_tree_quietly d (host_dir data_root slug)
  cleanup_path slug (some rel) = do
    require (is_op_path slug rel)
    delete (data_root ++ codes "/" ++ rel)

  unfoldable pub cleanup : String → Option Text → Action Done
  unfolding host_dir is_op_path
  cleanup slug rel = do check_slug slug; cleanup_path slug rel
