-- ===== src/Postgres/Idempotence.antt =====
-- The command line reads back as its arguments, and says whether it archives.
use relay_agent.Base.{Bool, List, Text, [], arith, false, refl, some, true, ◌++◌, ◌||◌, ◌∷◌, ◌≡◌}
use relay_agent.Docker.{codes}
use relay_agent.Postgres.Command.{
  archive_settings, archives, baseline_args, contains, flagged, install_script, install_wrapper,
  is_prefix, join_flags, last_part, pg_args, postgres_command_line,
}
use relay_agent.Shell.{gap, move, quote, words, words_from}
use relay_agent.Shell.Words.{quoted_last, quoted_word}

join_flags_words : (args : List Text) → words_from gap [] (join_flags args) ≡ some (flagged args)
unfolding join_flags words_from move
join_flags_words [] = refl
join_flags_words (a ∷ []) = rw (quoted_last a)
join_flags_words (a ∷ b ∷ args) = rw (quoted_word a, join_flags_words (b ∷ args))

-- Whatever the tuning arguments hold, the shell makes of the line the word `postgres` and, for
-- each argument, the two words `-c` and that argument unchanged: none can end its quotes.
pub words-postgres_command_line :
    (args : List Text) → words (postgres_command_line args) ≡ some (codes "postgres" ∷ flagged args)
unfolding words postgres_command_line move
words-postgres_command_line args = rw join_flags_words

is_prefix-append : (p s : Text) → is_prefix p (p ++ s) ≡ true
unfolding is_prefix
is_prefix-append [] s = refl
is_prefix-append (c ∷ p) s = ground (arith, is_prefix-append p s)

contains-append : (p s : Text) → contains p (p ++ s) ≡ true
unfolding contains
contains-append [] [] = refl
contains-append [] (c ∷ s) = refl
contains-append (c ∷ p) s = ground (arith, is_prefix-append (c ∷ p) s)

contains-append_right : (p s t : Text) → contains p t ≡ true → contains p (s ++ t) ≡ true
unfolding contains
contains-append_right p [] t h = h
contains-append_right p (c ∷ s) t h = ground (arith, contains-append_right p s t h)

is_prefix-append_left : (p s t : Text) → is_prefix p s ≡ true → is_prefix p (s ++ t) ≡ true
unfolding is_prefix
is_prefix-append_left [] s t h = refl
is_prefix-append_left (c ∷ p) [] t h = ground arith
is_prefix-append_left (c ∷ p) (b ∷ s) t h = ground (arith, is_prefix-append_left p s t)

contains-append_left : (p s t : Text) → contains p s ≡ true → contains p (s ++ t) ≡ true
unfolding contains
contains-append_left [] [] t h = contains-append [] t
contains-append_left [] (b ∷ s) t h = refl
contains-append_left (c ∷ p) [] t h = ground arith
contains-append_left (c ∷ p) (b ∷ s) t h =
    ground (arith, is_prefix-append_left (c ∷ p) (b ∷ s) t, contains-append_left (c ∷ p) s t)

contains-join_flags :
    (p : Text) (before : List Text) (a : Text) (behind : List Text)
    → contains p (quote a) ≡ true
    → contains p (join_flags (before ++ a ∷ behind)) ≡ true
unfolding join_flags
contains-join_flags p [] a [] h = contains-append_right p (codes "-c ") (quote a) h
contains-join_flags p [] a (b ∷ behind) h =
    contains-append_right p (codes "-c ") _ (contains-append_left p (quote a) _ h)
contains-join_flags p (b ∷ []) a behind h = contains-append_right p (codes "-c ") _ (
    contains-append_right p (quote b) _
      (contains-append_right p (codes " ") _ (contains-join_flags p [] a behind h)))
contains-join_flags p (b ∷ c ∷ before) a behind h = contains-append_right p (codes "-c ") _ (
    contains-append_right p (quote b) _
      (contains-append_right p (codes " ") _ (contains-join_flags p (c ∷ before) a behind h)))

contains-install_script :
    (p image line : Text) → contains p line ≡ true → contains p (install_script image line) ≡ true
unfolding install_script
contains-install_script p image line h =
    contains-append_right p
      (codes
        "apt-get update -qq && DEBIAN_FRONTEND=noninteractive apt-get install -y -qq postgresql-")
      _
      (contains-append_right p pg_major _ (
        contains-append_right p (codes "-pgaudit postgresql-") _ (
          contains-append_right p pg_major _ (
            contains-append_right p (codes "-hypopg postgresql-") _ (
              contains-append_right p pg_major _ (
                contains-append_right p (codes "-repack >/dev/null && exec docker-entrypoint.sh ")
                  line h))))))
  where
    pg_major : Text
    pg_major = quote (last_part [] image)

or_left : (b : Bool) → b ≡ true → (b || false) ≡ true
or_left b h = ground arith

archive_mode : contains (codes "archive_mode=on") (quote (codes "archive_mode=on")) ≡ true
unfolding contains quote
archive_mode = refl

-- A container that was started with WAL archiving is recognised by `enable_pitr` and `retune`
-- from its command, for every image and all tuning arguments.
pub archives-install_wrapper :
    (image : Text) (extra : List Text)
    → archives (install_wrapper image (postgres_command_line (pg_args true extra))) ≡ true
unfolding archives install_wrapper postgres_command_line pg_args
archives-install_wrapper image extra = or_left _ (
    contains-install_script mode image (postgres_command_line (pg_args true extra)) (
      contains-append_right mode (codes "postgres ") (join_flags (pg_args true extra))
        (contains-join_flags mode baseline_args mode (archive_settings ++ extra) archive_mode)))
  where
    mode : Text
    mode = codes "archive_mode=on"
