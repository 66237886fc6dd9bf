-- ===== src/Executor/Routes.antt =====
-- Which methods reach which handlers.
use std.Path.{sym}
use relay_agent.Base.{
  Bool, Bool-cases, List, [], arith, false, if-rule, if◌then◌else◌, inl, inr, not, refl, same,
  same-eq, true, ◌&&◌, ◌||◌, ◌∷◌, ◌≡◌,
}
use relay_agent.Executor.{
  Commands, Name, Route, by_parts, container, dispatch, docker_route, empty_result, found, fs,
  fs_route, handler, image, instances, is_fs, is_platform, is_private, name, platform_route,
  postgres, split_dots, system, tenantdb, three_parts, unknown_command, unknown_method,
}

-- The table of namespaces and resources.
pub data Serves : Name → Name → Commands → Type 0 where
  containers : {n r : Name} → n ≡ name "docker" → r ≡ name "container" → Serves n r container
  images : {n r : Name} → n ≡ name "docker" → r ≡ name "image" → Serves n r image
  systems : {n r : Name} → n ≡ name "docker" → r ≡ name "system" → Serves n r system
  saas_instances : {n r : Name} → n ≡ name "saas" → r ≡ name "instance" → Serves n r instances
  berth_instances : {n r : Name} → n ≡ name "berth" → r ≡ name "instance" → Serves n r instances
  saas_postgres : {n r : Name} → n ≡ name "saas" → r ≡ name "postgres" → Serves n r postgres
  saas_tenantdb : {n r : Name} → n ≡ name "saas" → r ≡ name "tenantdb" → Serves n r tenantdb
  berth_tenantdb : {n r : Name} → n ≡ name "berth" → r ≡ name "tenantdb" → Serves n r tenantdb

-- How a method's parts name a handler.
pub data Names (c : Commands) (a : Name) : List Name → Type 0 where
  two : {p : Name} → c ≡ fs → p ≡ name "fs" → Names c a (p ∷ a ∷ [])
  three : {n r : Name} {rest : List Name} → Serves n r c → Names c a (n ∷ r ∷ a ∷ rest)

-- The commands whose private methods are not dispatched.
abbrev pub is_guarded : Commands → Bool
is_guarded tenantdb = true
is_guarded _ = false

module _ (has : Commands → Name → Bool) where
  found-handler :
      (k c : Commands) (a b : Name)
      → found has k a ≡ handler c b
      → (k ≡ c) × (a ≡ b) × (has k a ≡ true)
  unfolding found
  found-handler k c a b h = ground arith

  -- That a route only reaches handlers that the table serves.
  abbrev pub IsServed : Name → Name → Name → Route → Type 0
  IsServed n r a v =
      (c : Commands) (b : Name)
      → v ≡ handler c b
      → Serves n r c × (a ≡ b) × (has c a ≡ true) × (is_guarded c && is_private a ≡ false)

  found-IsServed :
      (n r a : Name) (k : Commands)
      → Serves n r k
      → is_guarded k ≡ false
      → IsServed n r a (found has k a)
  found-IsServed n r a k s g c b h =
      let (p, q, t) = found-handler k c a b h in (rw (sym p) s, q, rw (sym p) t, rw (sym p, g) refl)

  unknown-IsServed : (n r a : Name) → IsServed n r a unknown_method
  unknown-IsServed n r a c b h = ground arith

  docker_route-IsServed : (n r a : Name) → n ≡ name "docker" → IsServed n r a (docker_route has r a)
  unfolding docker_route
  docker_route-IsServed n r a p =
      if-rule (IsServed n r a) (same r (name "container"))
        (λ q. found-IsServed n r a container (containers p (same-eq _ _ q)) refl)
        λ _.
          if-rule (IsServed n r a) (same r (name "image"))
            (λ q. found-IsServed n r a image (images p (same-eq _ _ q)) refl)
            λ _.
              if-rule (IsServed n r a) (same r (name "system"))
                (λ q. found-IsServed n r a system (systems p (same-eq _ _ q)) refl)
                λ _. unknown-IsServed n r a

  and-inv : (x y : Bool) → x && y ≡ true → (x ≡ true) × (y ≡ true)
  and-inv x y h = ground arith

  platform_instances :
      (n r : Name) → is_platform n ≡ true → r ≡ name "instance" → Serves n r instances
  unfolding is_platform
  platform_instances n r p q = elim (Bool-cases (same n (name "saas"))) [
    | inl e ↦ saas_instances (same-eq _ _ e) q
    | inr e ↦ berth_instances (same-eq _ _ (ground arith)) q
  ]

  platform_tenantdb :
      (n r : Name) → is_platform n ≡ true → r ≡ name "tenantdb" → Serves n r tenantdb
  unfolding is_platform
  platform_tenantdb n r p q = elim (Bool-cases (same n (name "saas"))) [
    | inl e ↦ saas_tenantdb (same-eq _ _ e) q
    | inr e ↦ berth_tenantdb (same-eq _ _ (ground arith)) q
  ]

  or-false : (x y : Bool) → not x || y ≡ false → (x ≡ true) × (y ≡ false)
  or-false x y h = ground arith

  handler-inj : (k c : Commands) (a b : Name) → handler k a ≡ handler c b → (k ≡ c) × (a ≡ b)
  handler-inj k c a b h = ground arith

  tenantdb_route-IsServed :
      (n r a : Name)
      → Serves n r tenantdb
      → IsServed n r a
          (if not (has tenantdb a) || is_private a then unknown_command else handler tenantdb a)
  tenantdb_route-IsServed n r a s =
      if-rule (IsServed n r a) (not (has tenantdb a) || is_private a) (λ _ c b h. ground arith)
        λ o c b h.
          let (p, q) = handler-inj tenantdb c a b h in
          let (f, g) = or-false _ _ o in (rw (sym p) s, q, rw (sym p) f, rw (sym p) g)

  platform_route-IsServed : (n r a : Name) → IsServed n r a (platform_route has n r a)
  unfolding platform_route is_platform
  platform_route-IsServed n r a =
      if-rule (IsServed n r a) (is_platform n && same r (name "instance"))
        (λ q.
          let (p, q) = and-inv _ _ q in
          found-IsServed n r a instances (platform_instances n r p (same-eq _ _ q)) refl)
        λ _.
          if-rule (IsServed n r a) (same n (name "saas") && same r (name "postgres"))
            (λ q.
              let (p, q) = and-inv _ _ q in
              found-IsServed n r a postgres (saas_postgres (same-eq _ _ p) (same-eq _ _ q)) refl)
            λ _.
              if-rule (IsServed n r a) (is_platform n && same r (name "tenantdb"))
                (λ q.
                  let (p, q) = and-inv _ _ q in
                  tenantdb_route-IsServed n r a (platform_tenantdb n r p (same-eq _ _ q)))
                λ _. unknown-IsServed n r a

  three_parts-IsServed : (n r a : Name) → IsServed n r a (three_parts has n r a)
  unfolding three_parts
  three_parts-IsServed n r a =
      if-rule (IsServed n r a) (same n (name "docker"))
        (λ p. docker_route-IsServed n r a (same-eq _ _ p)) λ _. platform_route-IsServed n r a

  abbrev IsNamed : List Name → Route → Type 0
  IsNamed parts v =
      (c : Commands) (b : Name)
      → v ≡ handler c b
      → Names c b parts × (has c b ≡ true) × (is_guarded c && is_private b ≡ false)

  empty-IsNamed : (parts : List Name) → IsNamed parts empty_result
  empty-IsNamed parts c b h = ground arith

  unknown-IsNamed : (parts : List Name) → IsNamed parts unknown_method
  unknown-IsNamed parts c b h = ground arith

  fs_route-IsNamed : (parts : List Name) → is_fs parts ≡ true → IsNamed parts (fs_route has parts)
  fs_route-IsNamed [] f c b h = unknown-IsNamed [] c b h
  fs_route-IsNamed (p ∷ []) f c b h = unknown-IsNamed _ c b h
  fs_route-IsNamed (p ∷ a ∷ []) f c b h =
      let (k, q, t) = found-handler fs c a b h in
      (rw (sym k, sym q) (two refl (same-eq p (name "fs") f)), rw (sym k, sym q) t, rw (sym k) refl)
  fs_route-IsNamed (p ∷ a ∷ _ ∷ _) f c b h = unknown-IsNamed _ c b h

  by_parts-IsNamed : (parts : List Name) → IsNamed parts (by_parts has parts)
  by_parts-IsNamed [] c b h = unknown-IsNamed _ c b h
  by_parts-IsNamed (_ ∷ []) c b h = unknown-IsNamed _ c b h
  by_parts-IsNamed (_ ∷ _ ∷ []) c b h = unknown-IsNamed _ c b h
  by_parts-IsNamed (n ∷ r ∷ a ∷ rest) c b h =
      let (s, q, t, g) = three_parts-IsServed n r a c b h in
      (rw (sym q) (three s), rw (sym q) t, rw (sym q) g)

  -- A method that is dispatched to a handler names it by its parts, as the table of namespaces and
  -- resources has it, and the command object has an attribute of that name, which for the tenant
  -- databases does not start with an underscore.
  pub dispatch-Names :
      (m b : Name) (c : Commands)
      → dispatch has m ≡ handler c b
      → Names c b (split_dots m) × (has c b ≡ true) × (is_guarded c && is_private b ≡ false)
  unfolding dispatch
  dispatch-Names m b c =
      let parts = split_dots m in
      if-rule (IsNamed parts) (same m (name "ping")) (λ _. empty-IsNamed parts)
        (λ _.
          if-rule (IsNamed parts) (is_fs parts) (fs_route-IsNamed parts)
            (λ _. by_parts-IsNamed parts))
        c b
