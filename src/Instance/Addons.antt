-- ===== src/Instance/Addons.antt =====
-- agent/commands/instance.py: `_merge_addon_paths`.
use relay_agent.Base.{
  Bool, List, Option, Text, [], any, false, if◌then◌else◌, none, not, same, some, true, ◌&&◌, ◌++◌,
  ◌==◌, ◌||◌, ◌∷◌,
}
use relay_agent.Fs.Cursor.{split_path}
use relay_agent.Slug.{is_nonempty}

-- The strings among the tenant's paths, without the empty one
unfoldable pub custom_paths : List (Option Text) → List Text
custom_paths [] = []
custom_paths (none ∷ ps) = custom_paths ps
custom_paths (some p ∷ ps) = let rest = custom_paths ps in if is_nonempty p then p ∷ rest else rest

-- `path.rstrip("/")`
unfoldable pub without_last_slashes : Text → Text
without_last_slashes [] = []
without_last_slashes (c ∷ s) =
    let rest = without_last_slashes s in
    if c == b'/' && not (is_nonempty rest) then [] else c ∷ rest

-- `[-2:]` of a list
unfoldable pub last_two : List Text → List Text
last_two (a ∷ b ∷ c ∷ ps) = last_two (b ∷ c ∷ ps)
last_two ps = ps

-- A path's last two components
unfoldable pub fingerprint : Text → List Text
unfolding without_last_slashes last_two
fingerprint path = last_two (split_path (without_last_slashes path))

abbrev pub has_two : List Text → Bool
has_two (_ ∷ _ ∷ _) = true
has_two _ = false

unfoldable pub same_parts : List Text → List Text → Bool
same_parts [] [] = true
same_parts (a ∷ p) (b ∷ q) = same a b && same_parts p q
same_parts _ _ = false

-- Whether a tenant's path of two components or more ends like this one
unfoldable pub is_shadowed : List Text → Text → Bool
unfolding fingerprint same_parts
is_shadowed custom path =
    any (λ c. has_two (fingerprint c) && same_parts (fingerprint c) (fingerprint path)) custom

unfoldable pub is_listed : List Text → Text → Bool
is_listed custom path = any (λ c. same c path) custom

unfoldable pub fresh_paths : List Text → List Text → List Text
unfolding is_shadowed is_listed
fresh_paths custom [] = []
fresh_paths custom (p ∷ baked) =
    let rest = fresh_paths custom baked in
    if is_shadowed custom p || is_listed custom p then rest else p ∷ rest

unfoldable pub merge_addon_paths : List (Option Text) → List Text → List Text
unfolding custom_paths fresh_paths
merge_addon_paths extra_paths baked =
    custom_paths extra_paths ++ fresh_paths (custom_paths extra_paths) baked
