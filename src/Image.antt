-- ===== src/Image.antt =====
-- agent/commands/image.py: images pulled, pruned, and files read out of them.
use relay_agent.Base.{
  Bool, Bool-cases, List, Option, String, Text, [], arith, false, if◌then◌else◌, inl, inr, leb,
  none, some, ℕ, ◌&&◌, ◌++◌, ◌∷◌, ◌≡◌, ◌≤◌,
}
use relay_agent.Base.Int.{negsuc, pos, ℤ}
use relay_agent.Docker.{codes}
use relay_agent.Postgres.Command.{contains}
use relay_agent.Shell.{quote}

data Filter : Type 0 where
  unused_until : ℕ → Filter
  dangling : Filter

-- What is asked of the daemon; a platform stands where one is given and not empty. A registry's
-- credentials, which `pull` passes on as they are, are left out.
data Ask : Type 0 where
  get_image : String → Ask
  pull_image : String → Option String → Ask
  prune_images : Filter → Ask
  run_once : String → Option String → List Text → Ask

-- `SpaceReclaimed` and the length of `ImagesDeleted`, where the answer has them
record Pruned : Type 0 where
  space_reclaimed : Option ℕ
  images_deleted : Option ℕ

-- The answers after the calls of a list, the newest first; `none` where the call raises. What
-- `containers.run` gives is the text that it decodes to.
record ImageDaemon : Type 0 where
  image_id : List Ask → String → Option String
  pulls : List Ask → String → Option String → Bool
  prunes : List Ask → Filter → Option Pruned
  prints : List Ask → String → Option String → List Text → Option Text

abbrev or_zero : Option ℕ → ℕ
or_zero none = 0
or_zero (some n) = n

abbrev reply_pruned : Option Pruned → Option (ℕ × ℕ)
reply_pruned none = none
reply_pruned (some r) = some (or_zero r.space_reclaimed, or_zero r.images_deleted)

abbrev not_found : Text
not_found = codes "__SAAS_NOT_FOUND__"

-- The command of `extract_file`
unfoldable cat_command : Text → List Text
unfolding quote
cat_command path =
    codes "sh"
    ∷ codes "-c"
    ∷ (codes "cat " ++ quote path ++ codes " 2>/dev/null || echo " ++ not_found)
    ∷ []

unfoldable content_of : Option Text → Option Text
unfolding contains
content_of none = none
content_of (some content) = if contains not_found content then none else some content

-- `params.get("older_than_hours", 168)` as an integer
abbrev hours_of : Option ℤ → ℤ
hours_of none = pos 168
hours_of (some n) = n

module _ (d : ImageDaemon) where
  -- `pull`, with the image's identifier where there is no error
  unfoldable pull : String → List Ask → List Ask × Option String
  pull image log =
      let pulled = pull_image image none ∷ log in
      if d.pulls log image none
      then (get_image image ∷ pulled, d.image_id pulled image)
      else (pulled, none)

  abbrev prune : Filter → List Ask → List Ask × Option (ℕ × ℕ)
  prune f log = (prune_images f ∷ log, reply_pruned (d.prunes log f))

  abbrev prune_until : ℤ → List Ask → List Ask × Option (ℕ × ℕ)
  prune_until (negsuc n) log = (log, none)
  prune_until (pos n) log =
      if leb 168 n && leb n 8760 then prune (unused_until n) log else (log, none)

  -- `prune_unused`, with none where it raises
  unfoldable prune_unused : Option ℤ → List Ask → List Ask × Option (ℕ × ℕ)
  prune_unused hours log = prune_until (hours_of hours) log

  unfoldable prune_dangling : List Ask → List Ask × Option (ℕ × ℕ)
  prune_dangling log = prune dangling log

  -- The run of `extract_file`
  unfoldable read_out : String → Text → Option String → List Ask → List Ask × Option Text
  unfolding cat_command content_of
  read_out image path platform log = (
    run_once image platform (cat_command path) ∷ log,
    content_of (d.prints log image platform (cat_command path)),
  )

  abbrev pull_and_read : String → Text → Option String → List Ask → List Ask × Option Text
  pull_and_read image path platform log =
      if d.pulls log image platform
      then read_out image path platform (pull_image image platform ∷ log)
      else (pull_image image platform ∷ log, none)

  abbrev if_cached :
      Option String → String → Text → Option String → List Ask → List Ask × Option Text
  if_cached none image path platform log = pull_and_read image path platform log
  if_cached (some _) image path platform log = read_out image path platform log

  unfoldable extract_file : String → Text → Option String → List Ask → List Ask × Option Text
  unfolding read_out
  extract_file image path platform log =
      if_cached (d.image_id log image) image path platform (get_image image ∷ log)

unfoldable KeepsAge : Ask → Type 0
KeepsAge (prune_images (unused_until n)) = (168 ≤ n) × (n ≤ 8760)
KeepsAge _ = Unit

unfoldable AllKeepAge : List Ask → Type 0
AllKeepAge [] = Unit
AllKeepAge (a ∷ log) = KeepsAge a × AllKeepAge log

-- `prune_unused` asks the daemon only for ages from a week up to a year.
prune_unused-AllKeepAge :
    (d : ImageDaemon) (hours : Option ℤ) (log : List Ask)
    → AllKeepAge log
    → AllKeepAge (prune_unused d hours log).0
unfolding prune_unused AllKeepAge KeepsAge
prune_unused-AllKeepAge d none log h = ((omega arith, omega arith), h)
prune_unused-AllKeepAge d (some (negsuc n)) log h = h
prune_unused-AllKeepAge d (some (pos n)) log h = elim (Bool-cases (leb 168 n && leb n 8760)) [
  | inl inside ↦ rw inside ((ground (arith, inside), ground (arith, inside)), h)
  | inr outside ↦ rw outside h
]

-- A text that holds the mark is never given as the content of a file.
content_of-unmarked :
    (printed : Option Text) (content : Text)
    → content_of printed ≡ some content
    → contains not_found content ≡ false
unfolding content_of
content_of-unmarked none content h = ground (arith, h)
content_of-unmarked (some t) content h = elim (Bool-cases (contains not_found t)) [
  | inl marked ↦ ground (arith, marked, h)
  | inr unmarked ↦ ground (arith, unmarked, h)
]
