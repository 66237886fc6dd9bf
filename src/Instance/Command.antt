-- ===== src/Instance/Command.antt =====
-- agent/commands/instance.py: the command that `provision` starts the container with.
use relay_agent.Base.{Bool, List, Option, Text, [], if◌then◌else◌, none, some, ◌++◌, ◌∷◌}
use relay_agent.Docker.{codes}
use relay_agent.Shell.{quote}
use relay_agent.Slug.{is_nonempty}

-- The strings among the modules that are asked for, without the empty one
unfoldable pub module_names : List (Option Text) → List Text
module_names [] = []
module_names (none ∷ ms) = module_names ms
module_names (some m ∷ ms) = let rest = module_names ms in if is_nonempty m then m ∷ rest else rest

unfoldable pub join_commas : List Text → Text
join_commas [] = []
join_commas (m ∷ []) = m
join_commas (m ∷ n ∷ ms) = m ++ (b',' ∷ join_commas (n ∷ ms))

abbrev pub init_args : List Text → List Text
init_args [] = []
init_args (m ∷ ms) = codes "-i" ∷ join_commas (m ∷ ms) ∷ []

abbrev pub init_modules : Bool → List (Option Text) → List Text
init_modules init_base ms = if init_base then codes "base" ∷ module_names ms else module_names ms

-- `odoo_cmd`
unfoldable pub odoo_args : Text → Bool → List (Option Text) → Bool → List Text
unfolding module_names join_commas
odoo_args db_name init_base ms demo_is_true =
    codes "odoo"
    ∷ codes "--config=/etc/odoo/odoo.conf"
    ∷ codes "-d"
    ∷ db_name
    ∷ (init_args (init_modules init_base ms)
        ++ (codes "--db-filter"
            ∷ (b'^' ∷ (db_name ++ (b'$' ∷ [])))
            ∷ (if demo_is_true then [] else codes "--without-demo=all" ∷ [])))

-- `' '.join(shlex.quote(a) for a in args)`
unfoldable pub join_quoted : List Text → Text
join_quoted [] = []
join_quoted (a ∷ []) = quote a
join_quoted (a ∷ b ∷ args) = quote a ++ (b' ' ∷ join_quoted (b ∷ args))

abbrev pub wait_script : Text
wait_script =
    codes
      "until pg_isready -h \"$HOST\" -p \"$PORT\" -U \"$USER\" 2>/dev/null; do sleep 2; done && "

unfoldable pub odoo_command : Text → Bool → List (Option Text) → Bool → List Text
unfolding odoo_args join_quoted
odoo_command db_name init_base ms demo_is_true =
    codes "sh"
    ∷ codes "-c"
    ∷ (wait_script ++ join_quoted (odoo_args db_name init_base ms demo_is_true))
    ∷ []
