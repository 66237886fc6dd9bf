-- ===== src/TenantDb/Safe.antt =====
-- The commands make calls only for a safe slug.
use relay_agent.Base.{
  All, Bool, Bool-cases, List, Option, String, Text, arith, false, inl, inr, subst, sym, true, ℕ,
  ◌||◌, ◌≡◌,
}
use relay_agent.Docker.{Call, Daemon, Result, codes}
use relay_agent.Docker.Extends.{Extends, Makes, Makes-map, unchanged}
use relay_agent.Docker.Refuses.{Refuses}
use relay_agent.Slug.{is_tenant_slug}
use relay_agent.Slug.Component.{has, slug-IsComponent}
use relay_agent.TenantDb.Commands.{Command, commands-Owned, run_command, slug_of, token_of}
use relay_agent.TenantDb.Owned.{IsEntryName, SafeOwned}
use relay_agent.TenantDb.Refusals.{run_command-Refuses}

refused-Extends :
    {A : Type 0} {P : Call → Type 0} (log : List Call) (p : Result A × List Call)
    → Refuses log p
    → Extends P log p.1
refused-Extends {P} log p (e, eq) = subst (λ q. Extends P log q.1) (sym eq) unchanged

module _ (d : Daemon) (data_root : Text) (parse_bytes : String → Option ℕ) (rounds : ℕ) where
  -- Where the random part of a dump's name has no slash and the entries of a directory are named as a
  -- file system names them: whatever the daemon answers and wherever a command fails, it makes calls
  -- only for a slug that is one component of a path, neither `.` nor `..`; and all its calls name
  -- objects and paths of that one tenant: the container under one of its two names, or one found or
  -- created under them, its network, its three volumes, and paths in its directory without a component
  -- `..`; the only other calls fetch images, read the clock and sleep.
  pub run_command-Owned :
      (c : Command)
      → has b'/' (codes (token_of c)) ≡ false
      → ((l : List Call) (path : Text) → All IsEntryName (d.entries l path))
      → Makes (SafeOwned d data_root (slug_of c)) (run_command d data_root parse_bytes rounds c)
  run_command-Owned c random named = elim (Bool-cases (is_tenant_slug (codes (slug_of c)))) [
    | inl safe ↦
        Makes-map (λ call own. (slug-IsComponent (codes (slug_of c)) (accepted _ _ safe), own))
          (commands-Owned d data_root parse_bytes rounds c random named)
    | inr unsafe ↦ record {
      at = λ log.
          refused-Extends log _ (run_command-Refuses d data_root parse_bytes rounds log c unsafe);
    }
  ]
    where
      accepted : (x y : Bool) → x ≡ true → x || y ≡ true
      accepted x y h = ground (arith, h)
