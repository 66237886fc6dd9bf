-- ===== src/Metrics.antt =====
-- agent/gateway.py: `_metrics_loop`, with `Executor.collect_metrics` of agent/executor.py.
use relay_agent.Base.{
  Bool, Bool-cases, List, Option, String, [], arith, false, inl, inr, none, refl, some, subst, true,
  ◌∷◌, ◌≡◌, ◌⊎◌,
}
use relay_agent.Container.Stats.{
  RawStats, Running, Sample, after_stats, has_role, metrics_samples, stats, with_sample,
}

-- How `ws.send` ends.
pub data Push : Type 0 where
  delivered connection_closed push_failed : Push

-- A round of the loop: the containers listed, none where that raises, and the sending
pub record Tick : Type 0 where
  pub listed : Option (List Running)
  pub sending : Push

abbrev pub collect : Option (List Running) → Option (List Sample)
collect none = none
collect (some cs) = metrics_samples cs

abbrev pub Pushed : Type 0
Pushed = List (List Sample) × Bool

abbrev pub after_push : Push → List Sample → Pushed → Pushed
after_push delivered samples rest = (samples ∷ rest.0, rest.1)
after_push connection_closed samples rest = ([], true)
after_push push_failed samples rest = rest

abbrev pub after_collect : Option (List Sample) → Push → Pushed → Pushed
after_collect none sending rest = rest
after_collect (some []) sending rest = rest
after_collect (some (x ∷ samples)) sending rest = after_push sending (x ∷ samples) rest

-- The samples of the frames that are delivered, and whether the loop has ended
unfoldable pub metrics_loop : List Tick → Pushed
unfolding metrics_samples
metrics_loop [] = ([], false)
metrics_loop (t ∷ ticks) =
    let rest = metrics_loop ticks in after_collect (collect t.listed) t.sending rest

-- The samples of a list of containers: in order, one for each with no role whose stats are given,
-- under its own slug
pub data AreSamplesOf : List Running → List Sample → Type 0 where
  no_more : AreSamplesOf [] []
  sidecar :
      {cs : List Running} {xs : List Sample} (c : Running)
      → has_role c.role ≡ true
      → AreSamplesOf cs xs
      → AreSamplesOf (c ∷ cs) xs
  without_stats :
      {cs : List Running} {xs : List Sample} (c : Running)
      → c.raw ≡ none
      → AreSamplesOf cs xs
      → AreSamplesOf (c ∷ cs) xs
  app :
      {cs : List Running} {xs : List Sample} (c : Running) (x : Sample) (raw : RawStats)
      → has_role c.role ≡ false
      → c.raw ≡ some raw
      → c.slug ≡ some x.0
      → stats raw ≡ x.1
      → AreSamplesOf cs xs
      → AreSamplesOf (c ∷ cs) (x ∷ xs)

-- Frames against rounds, in order: a round whose frame is not delivered, or that has no sample, is
-- passed over, and the first one that finds the connection closed is the last.
pub data Reports : List Tick → List (List Sample) → Type 0 where
  no_rounds : Reports [] []
  closed : {ts : List Tick} (t : Tick) → t.sending ≡ connection_closed → Reports (t ∷ ts) []
  undelivered :
      {ts : List Tick} {fs : List (List Sample)} (t : Tick)
      → t.sending ≡ push_failed
      → Reports ts fs
      → Reports (t ∷ ts) fs
  empty :
      {ts : List Tick} {fs : List (List Sample)} (t : Tick)
      → (collect t.listed ≡ none) ⊎ (collect t.listed ≡ some [])
      → Reports ts fs
      → Reports (t ∷ ts) fs
  pushed :
      {ts : List Tick} {fs : List (List Sample)} (t : Tick) (cs : List Running) (x : Sample)
      → (xs : List Sample) → t.listed ≡ some cs
      → t.sending ≡ delivered
      → AreSamplesOf cs (x ∷ xs)
      → Reports ts fs
      → Reports (t ∷ ts) ((x ∷ xs) ∷ fs)

module _ (c : Running) (cs : List Running) (own : has_role c.role ≡ false) where
  with_sample-AreSamplesOf :
      (raw : RawStats) (slug : Option String) (rest : Option (List Sample)) {xs : List Sample}
      → c.raw ≡ some raw
      → c.slug ≡ slug
      → ((ys : List Sample) → rest ≡ some ys → AreSamplesOf cs ys)
      → with_sample slug (stats raw) rest ≡ some xs
      → AreSamplesOf (c ∷ cs) xs
  with_sample-AreSamplesOf raw (some slug) (some ys) has_raw has_slug ih e =
      subst (AreSamplesOf (c ∷ cs)) (ground (arith, e))
        (app c (slug, stats raw) raw own has_raw has_slug refl (ih ys refl))
  with_sample-AreSamplesOf raw (some slug) none has_raw has_slug ih e = ground (arith, e)
  with_sample-AreSamplesOf raw none (some ys) has_raw has_slug ih e = ground (arith, e)
  with_sample-AreSamplesOf raw none none has_raw has_slug ih e = ground (arith, e)

  after_stats-AreSamplesOf :
      (o : Option RawStats) (rest : Option (List Sample)) {xs : List Sample}
      → c.raw ≡ o
      → ((ys : List Sample) → rest ≡ some ys → AreSamplesOf cs ys)
      → after_stats o c.slug rest ≡ some xs
      → AreSamplesOf (c ∷ cs) xs
  after_stats-AreSamplesOf none rest {xs} silent ih e = without_stats c silent (ih xs e)
  after_stats-AreSamplesOf (some raw) rest has_raw ih e =
      with_sample-AreSamplesOf raw c.slug rest has_raw refl ih e

metrics_samples-AreSamplesOf :
    (cs : List Running) (xs : List Sample) → metrics_samples cs ≡ some xs → AreSamplesOf cs xs
unfolding metrics_samples
metrics_samples-AreSamplesOf [] xs e = subst (AreSamplesOf []) (ground (arith, e)) no_more
metrics_samples-AreSamplesOf (c ∷ cs) xs e = elim (Bool-cases (has_role c.role)) [
  | inl aside ↦ sidecar c aside (metrics_samples-AreSamplesOf cs xs (rw aside at e))
  | inr own ↦
      after_stats-AreSamplesOf c cs own c.raw (metrics_samples cs) refl
        (metrics_samples-AreSamplesOf cs) (rw own at e)
]

collect-AreSamplesOf :
    (o : Option (List Running)) (xs : List Sample)
    → collect o ≡ some xs
    → (cs : List Running) × (o ≡ some cs) × AreSamplesOf cs xs
collect-AreSamplesOf none xs e = ground (arith, e)
collect-AreSamplesOf (some cs) xs e = (cs, refl, metrics_samples-AreSamplesOf cs xs e)

module _ (t : Tick) (ticks : List Tick) (rest : Pushed) (ih : Reports ticks rest.0) where
  after_push-Reports :
      (p : Push) (x : Sample) (xs : List Sample)
      → t.sending ≡ p
      → collect t.listed ≡ some (x ∷ xs)
      → Reports (t ∷ ticks) (after_push p (x ∷ xs) rest).0
  after_push-Reports delivered x xs e c =
      let (cs, listed, samples) = collect-AreSamplesOf t.listed (x ∷ xs) c in
      pushed t cs x xs listed e samples ih
  after_push-Reports connection_closed x xs e c = closed t e
  after_push-Reports push_failed x xs e c = undelivered t e ih

  after_collect-Reports :
      (o : Option (List Sample))
      → collect t.listed ≡ o
      → Reports (t ∷ ticks) (after_collect o t.sending rest).0
  after_collect-Reports none e = empty t (inl e) ih
  after_collect-Reports (some []) e = empty t (inr e) ih
  after_collect-Reports (some (x ∷ xs)) e = after_push-Reports t.sending x xs refl e

-- Whatever the daemon and the connection do: the frames of the metrics loop that are delivered
-- belong to its rounds in order, each with the samples of its own round: in order, one for every
-- container listed that has no role and whose stats could be read, under its own slug; a frame is
-- never empty, a failed listing or sending costs its own round alone, and nothing follows a round
-- that finds the connection closed.
pub metrics_loop-Reports : (ticks : List Tick) → Reports ticks (metrics_loop ticks).0
unfolding metrics_loop
metrics_loop-Reports [] = no_rounds
metrics_loop-Reports (t ∷ ticks) =
    after_collect-Reports t ticks (metrics_loop ticks) (metrics_loop-Reports ticks)
      (collect t.listed) refl
