-- ===== src/Examples/Tenants.antt =====
-- agent/commands/tenantdb.py at concrete inputs.
use relay_agent.Base.{
  Option, String, Text, [], arith, false, if◌then◌else◌, none, refl, same, some, str_eq, true, ℕ,
  ◌*◌, ◌++◌, ◌∷◌, ◌≡◌,
}
use relay_agent.Docker.{codes, rename}
use relay_agent.Docker.Aside.{is_aside}
use relay_agent.Docker.Ends.{Ends}
use relay_agent.Docker.Extends.{Makes}
use relay_agent.Docker.Refuses.{Refuses}
use relay_agent.Docker.Rounds.{HasRounds}
use relay_agent.Examples.Commands.{silent, silent-sleeps, silent-steady, steady}
use relay_agent.Slug.{is_ident, is_tenant_slug}
use relay_agent.Slug.Component.{has}
use relay_agent.TenantDb.Apart.{Owned-apart}
use relay_agent.TenantDb.Commands.{dump_it, remove_it, run_command}
use relay_agent.TenantDb.Ensure.{bring_up_or_undo, ensure, poll, put_back}
use relay_agent.TenantDb.Lifecycle.{remove_all}
use relay_agent.TenantDb.Names.{Params, max_mem, names}
use relay_agent.TenantDb.OpPath.{is_op_path-Below}
use relay_agent.TenantDb.Owned.{Below, OwnName, OwnVolume, SafeOwned}
use relay_agent.TenantDb.Patterns.{has_two_dots, is_op_path}
use relay_agent.TenantDb.PutBack.{Fails, IsBack, put_back-PutBack}
use relay_agent.TenantDb.Readiness.{poll-HasRounds}
use relay_agent.TenantDb.Recreate.{Failed, Replaced, bring_up_or_undo-Ends}
use relay_agent.TenantDb.Refusals.{ensure-Refuses, is_allowed, run_command-Refuses}
use relay_agent.TenantDb.Safe.{run_command-Owned}
use relay_agent.TenantDb.Volumes.{KeepsData, remove_all-KeepsData}

abbrev acme : Params
acme = record {
  slug = "acme";
  image = "postgres:16";
  command = codes "postgres" ∷ [];
  environment = ("POSTGRES_USER", "odoo") ∷ ("POSTGRES_PASSWORD", "secret") ∷ [];
  mem_limit = none;
  pids_limit = none;
  wal_archiving = true;
  recreate = true;
  pull = false;
}

abbrev greedy : Params
greedy = record {
  slug = "acme";
  image = "postgres:16";
  command = codes "postgres" ∷ [];
  environment = ("POSTGRES_USER", "odoo") ∷ [];
  mem_limit = some "8g";
  pids_limit = none;
  wal_archiving = true;
  recreate = true;
  pull = false;
}

abbrev gigabytes : String → Option ℕ
gigabytes s = if str_eq s "8g" then some (8 * max_mem) else some 1024

bring_up_or_undo-Ends_example :
    Ends
      (λ _ l. Replaced steady acme 7 "odoo" (rename 7 "berth_pg_acme_old" ∷ []) l)
      (Failed steady acme 7 "odoo" (rename 7 "berth_pg_acme_old" ∷ []))
      (bring_up_or_undo steady 2 acme "odoo" (some 7) (rename 7 "berth_pg_acme_old" ∷ []))
unfolding is_aside names
bring_up_or_undo-Ends_example =
    bring_up_or_undo-Ends steady acme 7 (λ l a e. ground arith) 2 "odoo"
      (rename 7 "berth_pg_acme_old" ∷ []) refl

run_command-Owned_example :
    Makes
      (SafeOwned steady (codes "/data") "acme")
      (run_command steady (codes "/data") gigabytes 91 (dump_it "5f3a" "acme" "odoo" "shop"))
unfolding has
run_command-Owned_example =
    run_command-Owned steady (codes "/data") gigabytes 91 (dump_it "5f3a" "acme" "odoo" "shop") refl
      (λ l path. tt)

ensure-Refuses_example : Refuses [] (ensure steady gigabytes 91 greedy [])
unfolding is_allowed is_tenant_slug is_ident
ensure-Refuses_example = ensure-Refuses steady gigabytes greedy [] refl 91

run_command-Refuses_example :
    Refuses [] (run_command steady (codes "/data") gigabytes 91 (remove_it "../acme" false) [])
unfolding is_tenant_slug
run_command-Refuses_example =
    run_command-Refuses steady (codes "/data") gigabytes 91 [] (remove_it "../acme" false) refl

is_op_path-Below_example :
    ((more : Text) × (codes "_tenantdb/acme/export/wal"
        ≡ codes "_tenantdb/" ++ (codes "acme" ++ (b'/' ∷ more))))
    × (has_two_dots (codes "_tenantdb/acme/export/wal") ≡ false)
unfolding is_op_path same
is_op_path-Below_example = is_op_path-Below "acme" (codes "_tenantdb/acme/export/wal") refl

poll-HasRounds_example : HasRounds (poll silent 91 9 "odoo" 90000 [])
poll-HasRounds_example =
    poll-HasRounds silent silent-steady silent-sleeps 90 9 "odoo" 90000 [] (omega arith)

remove_all-KeepsData_example :
    Makes (KeepsData "acme") (remove_all steady (codes "/data") "acme" true)
remove_all-KeepsData_example = remove_all-KeepsData steady (codes "/data") "acme"

put_back-PutBack_example :
    Ends
      (λ _ l. IsBack steady "berth_pg_acme" 7 [] l)
      (Fails steady "berth_pg_acme" 7 [])
      (put_back steady "berth_pg_acme" 7 [])
put_back-PutBack_example = put_back-PutBack steady "berth_pg_acme" 7 []

Owned-apart_example :
    ((n : String) → OwnName "acme" n → OwnName "acme-2" n → ◌≡◌ {A = String} "acme" "acme-2")
    × ((names "acme").network ≡ (names "acme-2").network → ◌≡◌ {A = String} "acme" "acme-2")
    × ((v : String) → OwnVolume "acme" v → OwnVolume "acme-2" v → ◌≡◌ {A = String} "acme" "acme-2")
    × ((p : Text)
        → Below (codes "/data") "acme" p
        → Below (codes "/data") "acme-2" p
        → ◌≡◌ {A = String} "acme" "acme-2")
unfolding is_tenant_slug
Owned-apart_example = Owned-apart "acme" "acme-2" refl refl (codes "/data")
