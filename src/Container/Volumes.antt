-- ===== src/Container/Volumes.antt =====
-- agent/commands/container.py: `_resolve_volumes`. A path is the list of its components, the last
-- one first; `root` is what `os.path.realpath` makes of the data root.
use relay_agent.Base.{
  Bool, List, Option, Text, [], false, if◌then◌else◌, none, not, some, ◌==◌, ◌||◌, ◌∷◌,
}
use relay_agent.Fs.Cursor.{split_path}
use relay_agent.Fs.Lexical.{is_under, normalise, same_path}

-- `joined != root and not joined.startswith(root + os.sep)`, negated: with `/` as the root no text
-- starts with the two slashes.
unfoldable pub is_inside : List Text → List Text → Bool
unfolding same_path is_under
is_inside [] p = same_path p []
is_inside (r ∷ root) p = is_under (r ∷ root) p

abbrev pub starts_with_slash : Text → Bool
starts_with_slash [] = false
starts_with_slash (c ∷ _) = c == b'/'

pub data Resolved : Type 0 where
  as_given : Text → Resolved
  real_path : List Text → Resolved

module _ (real : List Text → List Text) (is_link : List Text → Bool) (root : List Text) where
  -- The loop over the components below the root
  unfoldable pub any_link : List Text → Bool
  unfolding same_path
  any_link [] = false
  any_link (c ∷ p) =
      let above = any_link p in if same_path (c ∷ p) root then false else is_link (c ∷ p) || above

  -- One volume; `none` where ValueError is raised.
  unfoldable pub resolve_volume : Text → Option Resolved
  unfolding normalise is_inside
  resolve_volume host_path =
      let joined = normalise root (split_path host_path) in
      if starts_with_slash host_path
      then some (as_given host_path)
      else if not (is_inside root joined)
      then none
      else if any_link joined
      then none
      else if not (is_inside root (real joined))
      then none
      else some (real_path (real joined))

  abbrev pub with_volume {ℓ} :
      {A : Type ℓ}
      → Option Resolved
      → A
      → Option (List (Resolved × A))
      → Option (List (Resolved × A))
  with_volume none spec rest = none
  with_volume (some p) spec none = none
  with_volume (some p) spec (some rest) = some ((p, spec) ∷ rest)

  -- The loop over the volumes
  unfoldable pub resolve_volumes {ℓ} : {A : Type ℓ} → List (Text × A) → Option (List (Resolved × A))
  resolve_volumes [] = some []
  resolve_volumes ((host_path, spec) ∷ volumes) =
      with_volume (resolve_volume host_path) spec (resolve_volumes volumes)
