-- ===== src/Executor.antt =====
-- agent/executor.py: `Executor.dispatch`, which finds a handler for a method's name. Texts are
-- lists of code points, since the name is taken apart.
pub mod Routes
pub mod Checks
use Prim.Native.Char.{code}
use relay_agent.Base.{
  Bool, List, String, [], false, if◌then◌else◌, not, same, ℕ, ◌&&◌, ◌==◌, ◌||◌, ◌∷◌,
}

abbrev pub Name : Type 0
Name = List ℕ

abbrev pub name : String → Name
name String.[] = []
name (String.◌∷◌ c s) = code c ∷ name s

abbrev pub onto_first : ℕ → List Name → List Name
onto_first c [] = (c ∷ []) ∷ []
onto_first c (p ∷ ps) = (c ∷ p) ∷ ps

-- `method.split(".")`
unfoldable pub split_dots : Name → List Name
split_dots [] = [] ∷ []
split_dots (c ∷ s) =
    let parts = split_dots s in if c == b'.' then [] ∷ parts else onto_first c parts

-- The command objects of an executor that have handlers.
pub data Commands : Type 0 where
  container image system fs instances postgres tenantdb : Commands

-- How a call of `dispatch` goes on: the empty result of `ping`, a handler with its name, or a
-- ValueError.
pub data Route : Type 0 where
  empty_result : Route
  handler : Commands → Name → Route
  unknown_method unknown_command : Route

-- `action.startswith("_")`
unfoldable pub is_private : Name → Bool
is_private [] = false
is_private (c ∷ _) = c == b'_'

unfoldable pub is_platform : Name → Bool
is_platform ns = same ns (name "saas") || same ns (name "berth")

abbrev pub is_fs : List Name → Bool
is_fs [] = false
is_fs (p ∷ _) = same p (name "fs")

-- `has c a` is whether `getattr(c, a, None)` finds something.
module _ (has : Commands → Name → Bool) where
  unfoldable pub found : Commands → Name → Route
  found c action = if has c action then handler c action else unknown_command

  unfoldable pub docker_route : Name → Name → Route
  unfolding found
  docker_route resource action =
      if same resource (name "container")
      then found container action
      else if same resource (name "image")
      then found image action
      else if same resource (name "system")
      then found system action
      else unknown_method

  unfoldable pub platform_route : Name → Name → Name → Route
  unfolding found is_platform
  platform_route ns resource action =
      if is_platform ns && same resource (name "instance")
      then found instances action
      else if same ns (name "saas") && same resource (name "postgres")
      then found postgres action
      else if is_platform ns && same resource (name "tenantdb")
      then (if not (has tenantdb action) || is_private action
          then unknown_command
          else handler tenantdb action)
      else unknown_method

  unfoldable pub three_parts : Name → Name → Name → Route
  unfolding docker_route platform_route
  three_parts ns resource action =
      if same ns (name "docker")
      then docker_route resource action
      else platform_route ns resource action

  abbrev pub fs_route : List Name → Route
  fs_route (_ ∷ action ∷ []) = found fs action
  fs_route _ = unknown_method

  abbrev pub by_parts : List Name → Route
  by_parts (ns ∷ resource ∷ action ∷ _) = three_parts ns resource action
  by_parts _ = unknown_method

  -- `Executor.dispatch`
  unfoldable pub dispatch : Name → Route
  unfolding split_dots same
  dispatch method =
      if same method (name "ping")
      then empty_result
      else if is_fs (split_dots method)
      then fs_route (split_dots method)
      else by_parts (split_dots method)
