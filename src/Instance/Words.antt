-- ===== src/Instance/Words.antt =====
-- What a shell makes of the command that starts an instance.
use relay_agent.Base.{Bool, List, Option, Text, [], ap, refl, some, ◌++◌, ◌∙◌, ◌∷◌, ◌≡◌}
use relay_agent.Docker.{codes}
use relay_agent.Instance.Command.{join_quoted, odoo_args, odoo_command, wait_script}
use relay_agent.Shell.{add_word, gap, words, words_from}
use relay_agent.Shell.Words.{quoted_last, quoted_word}

words-join_quoted_from : (args : List Text) → words_from gap [] (join_quoted args) ≡ some args
unfolding join_quoted words_from
words-join_quoted_from [] = refl
words-join_quoted_from (a ∷ []) = quoted_last a
words-join_quoted_from (a ∷ b ∷ args) =
    quoted_word a (b' ' ∷ join_quoted (b ∷ args))
    ∙ ap (add_word a) (words-join_quoted_from (b ∷ args))

-- Whatever the database's name and the modules hold, the shell makes of the command line, after
-- the loop that waits for the database, exactly the arguments.
pub words-odoo_args :
    (db_name : Text) (init_base : Bool) (ms : List (Option Text)) (demo_is_true : Bool)
    → (line : Text) × (odoo_command db_name init_base ms demo_is_true
        ≡ codes "sh" ∷ codes "-c" ∷ (wait_script ++ line) ∷ [])
      × (words line ≡ some (odoo_args db_name init_base ms demo_is_true))
unfolding odoo_command words
words-odoo_args db_name init_base ms demo_is_true = (
  join_quoted (odoo_args db_name init_base ms demo_is_true),
  refl,
  words-join_quoted_from (odoo_args db_name init_base ms demo_is_true),
)
