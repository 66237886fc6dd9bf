-- ===== src/TenantDb/Refusals.antt =====
-- Parameters that are refused before any call is made.
use relay_agent.Base.{
  Bool, List, Option, String, Text, [], arith, false, if◌then◌else◌, leb, none, refl, some, str_eq,
  true, ℕ, ◌&&◌, ◌∷◌, ◌≡◌,
}
use relay_agent.Docker.{Action, Call, Daemon, codes, docker_error, missing_key, pure, ◌>>=◌, ◌>>◌}
use relay_agent.Docker.Refuses.{Refuses, bind-Refuses, require-Refuses}
use relay_agent.Slug.{is_ident, is_tenant_slug, starts_with}
use relay_agent.TenantDb.Commands.{
  Command, ask_status, clean_up, dump_it, ensure_with, export_it, remove_it, restore_it,
  run_command, slug_of, start_it, stop_it,
}
use relay_agent.TenantDb.Ensure.{ensure}
use relay_agent.TenantDb.Files.{cleanup, dump, export_dir, restore}
use relay_agent.TenantDb.Lifecycle.{container_status, remove_all, start_container, stop_container}
use relay_agent.TenantDb.Names.{
  Params, check_ident, check_params, check_slug, is_pids_limit, item_of, max_mem, memory_limit,
  parsed, process_limit, starts_postgres,
}

-- The first value of a key
unfoldable value_of : String → List (String × String) → Option String
value_of key [] = none
value_of key ((k, v) ∷ items) =
    let rest = value_of key items in if str_eq k key then some v else rest

module _ {ℓ} {A : Type ℓ} where
  parsed-Refuses :
      (o : Option ℕ) (f : ℕ → Action A) (log : List Call)
      → ((n : ℕ) → o ≡ some n → Refuses log (f n log))
      → Refuses log ((parsed o >>= f) log)
  unfolding ◌>>=◌
  parsed-Refuses none f log h = (docker_error, refl)
  parsed-Refuses (some n) f log h = h n refl

  first-Refuses :
      (b : Bool) (v : String) (o : Option String) (m : Action String) (f : String → Action A)
      (log : List Call)
      → ((w : String) → (if b then some v else o) ≡ some w → Refuses log (f w log))
      → (((w : String) → o ≡ some w → Refuses log (f w log)) → Refuses log ((m >>= f) log))
      → Refuses log (((if b then pure v else m) >>= f) log)
  unfolding ◌>>=◌
  first-Refuses true v o m f log h k = h v refl
  first-Refuses false v o m f log h k = k h

  item_of-Refuses :
      (key : String) (items : List (String × String)) (f : String → Action A) (log : List Call)
      → ((v : String) → value_of key items ≡ some v → Refuses log (f v log))
      → Refuses log ((item_of key items >>= f) log)
  unfolding ◌>>=◌ item_of value_of
  item_of-Refuses key [] f log h = (missing_key, refl)
  item_of-Refuses key ((k, v) ∷ items) f log h =
      first-Refuses (str_eq k key) v (value_of key items) (item_of key items) f log h
        (item_of-Refuses key items f log)

abbrev pub holds {ℓ} : {A : Type ℓ} → (A → Bool) → Option A → Bool
holds p none = false
holds p (some a) = p a

-- What `ensure` asks of its parameters
unfoldable pub is_allowed : (String → Option ℕ) → Params → Bool
unfolding value_of
is_allowed parse_bytes p =
    is_tenant_slug (codes p.slug)
    && holds (λ user. is_ident (codes user)) (value_of "POSTGRES_USER" p.environment)
    && holds (λ bytes. leb bytes max_mem) (parse_bytes (memory_limit p))
    && is_pids_limit (process_limit p)
    && starts_postgres p.command
    && starts_with (codes "postgres:") (codes p.image)

module _ (d : Daemon) (parse_bytes : String → Option ℕ) (p : Params) (log : List Call)
    (refused : is_allowed parse_bytes p ≡ false) where
  check_params-Refuses : Refuses log (check_params parse_bytes p log)
  unfolding check_params check_slug check_ident is_allowed
  check_params-Refuses = require-Refuses _ _ log λ h1.
      item_of-Refuses "POSTGRES_USER" p.environment _ log λ user h2. require-Refuses _ _ log λ h3.
        parsed-Refuses _ _ log λ bytes h4. require-Refuses _ _ log λ h5.
          require-Refuses _ _ log λ h6.
            require-Refuses _ _ log
              λ h7. require-Refuses _ _ log λ h8. absurd (ground (arith, refused))

  -- For parameters outside those limits, `ensure` raises and makes no call.
  pub ensure-Refuses : (rounds : ℕ) → Refuses log (ensure d parse_bytes rounds p log)
  unfolding ensure
  ensure-Refuses rounds = bind-Refuses _ _ log check_params-Refuses

module _ {ℓ} {A : Type ℓ} where
  check_slug-Refuses :
      (slug : String) (m : Action A) (log : List Call)
      → is_tenant_slug (codes slug) ≡ false
      → Refuses log ((check_slug slug >> m) log)
  unfolding check_slug
  check_slug-Refuses slug m log unsafe =
      require-Refuses _ m log (λ safe. ground (arith, unsafe, safe))

module _ (d : Daemon) (data_root : Text) (parse_bytes : String → Option ℕ) (rounds : ℕ)
    (log : List Call) where
  -- With a slug that the pattern does not let through, every command raises and makes no call.
  pub run_command-Refuses :
      (c : Command)
      → is_tenant_slug (codes (slug_of c)) ≡ false
      → Refuses log (run_command d data_root parse_bytes rounds c log)
  unfolding run_command ensure check_params container_status stop_container start_container
      remove_all dump restore export_dir cleanup
  run_command-Refuses (ensure_with p) unsafe =
      bind-Refuses _ _ log (bind-Refuses _ _ log (check_slug-Refuses p.slug _ log unsafe))
  run_command-Refuses (ask_status slug) unsafe =
      bind-Refuses _ _ log (check_slug-Refuses slug _ log unsafe)
  run_command-Refuses (stop_it slug) unsafe =
      bind-Refuses _ _ log (check_slug-Refuses slug _ log unsafe)
  run_command-Refuses (start_it slug pg_user) unsafe =
      bind-Refuses _ _ log (check_slug-Refuses slug _ log unsafe)
  run_command-Refuses (remove_it slug keep_volume) unsafe =
      bind-Refuses _ _ log (check_slug-Refuses slug _ log unsafe)
  run_command-Refuses (dump_it token slug pg_user db_name) unsafe =
      bind-Refuses _ _ log (check_slug-Refuses slug _ log unsafe)
  run_command-Refuses (restore_it slug owner db_name password file) unsafe =
      bind-Refuses _ _ log (check_slug-Refuses slug _ log unsafe)
  run_command-Refuses (export_it slug raw_path name) unsafe =
      bind-Refuses _ _ log (check_slug-Refuses slug _ log unsafe)
  run_command-Refuses (clean_up slug path) unsafe =
      bind-Refuses _ _ log (check_slug-Refuses slug _ log unsafe)
