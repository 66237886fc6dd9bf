-- ===== src/Docker/Aside.antt =====
-- A container that is renamed out of the way, and the calls that leave it alone.
use relay_agent.Base.{
  Bool, List, String, [], arith, false, if◌then◌else◌, not, refl, str_eq, ℕ, ◌&&◌, ◌==◌, ◌∙◌, ◌∷◌,
  ◌≡◌, ◌≢◌,
}
use relay_agent.Docker.{Call, Daemon, remove, rename}
use relay_agent.Docker.Extends.{Extends, after, unchanged}

-- Calls that neither remove a container nor rename it.
abbrev pub Leaves : ℕ → Call → Type 0
Leaves h (rename g _) = g ≢ h
Leaves h (remove g _) = g ≢ h
Leaves h _ = Unit

-- Calls that do not remove a container.
abbrev pub Spares : ℕ → Call → Type 0
Spares h (remove g _) = g ≢ h
Spares h _ = Unit

pub Leaves-Spares : (h : ℕ) (c : Call) → Leaves h c → Spares h c
Leaves-Spares h (remove g _) p = p
Leaves-Spares h _ p = tt

pub Extends-Spares :
    (h : ℕ) {log l : List Call} → Extends (Leaves h) log l → Extends (Spares h) log l
Extends-Spares h unchanged = unchanged
Extends-Spares h (after {c} p e) = after (Leaves-Spares h c p) (Extends-Spares h e)

-- Whether a container's last successful renaming, if there was one, took its own name from it.
unfoldable pub is_aside : Daemon → String → ℕ → List Call → Bool
is_aside d own_name h [] = false
is_aside d own_name h (rename g name ∷ log) =
    let before = is_aside d own_name h log in
    if g == h && d.succeeds log (rename g name) then not (str_eq name own_name) else before
is_aside d own_name h (_ ∷ log) = is_aside d own_name h log

pub is_aside-after :
    (d : Daemon) (own_name : String) (h : ℕ) (c : Call) (log : List Call)
    → Leaves h c
    → is_aside d own_name h (c ∷ log) ≡ is_aside d own_name h log
unfolding is_aside
is_aside-after d own_name h (rename g name) log p = ground arith
is_aside-after d own_name h _ log p = refl

pub is_aside-Extends :
    (d : Daemon) (own_name : String) (h : ℕ) {log l : List Call}
    → Extends (Leaves h) log l
    → is_aside d own_name h l ≡ is_aside d own_name h log
is_aside-Extends d own_name h unchanged = refl
is_aside-Extends d own_name h (after {c} {l} p e) =
    is_aside-after d own_name h c l p ∙ is_aside-Extends d own_name h e
