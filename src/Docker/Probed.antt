-- ===== src/Docker/Probed.antt =====
-- What an answer of a probing command shows.
use relay_agent.Base.{Bool-cases, List, String, inl, inr, refl, ℕ, ◌∷◌, ◌≡◌}
use relay_agent.Docker.{Action, Call, Daemon, exec, exec_run}
use relay_agent.Docker.Ends.{Ends, Ends-map, Makes-Ends, raises, returns}
use relay_agent.Docker.Extends.{Extends, Makes, after, unchanged}

abbrev pub AnyCall : Call → Type 0
AnyCall _ = Unit

-- The last call ran `cmd` in the container `g`, and that answered 0; of the calls before, `I` holds.
pub record Answered (d : Daemon) (I : List Call → Type 0) (cmd : List String) (g : ℕ)
    (l : List Call) : Type 0 where
  pub earlier : List Call
  pub last : l ≡ exec_run g cmd ∷ earlier
  pub zero_code : d.exit_code earlier g ≡ 0
  pub holds_earlier : I earlier

module _ (I : List Call → Type 0) (stays : (c : Call) (l : List Call) → I l → I (c ∷ l)) where
  pub Extends-stays : {P : Call → Type 0} {log l : List Call} → Extends P log l → I log → I l
  Extends-stays unchanged i = i
  Extends-stays (after {c} {l} p e) i = stays c l (Extends-stays e i)

  pub Ends-stays {ℓ} :
      {A : Type ℓ} {P : Call → Type 0} {m : Action A} (log : List Call)
      → Makes P m
      → I log
      → Ends (λ _ l. I l) (λ _. Unit) (m log)
  Ends-stays log h i = Ends-map (λ _ l e. Extends-stays e i) (λ _ _. tt) (Makes-Ends log h)

  pub exec-Answered :
      (d : Daemon) (g : ℕ) (cmd : List String) (l : List Call)
      → I l
      → Ends (λ code l'. (code ≡ 0 → Answered d I cmd g l') × I l') (λ _. Unit) (exec d g cmd l)
  unfolding exec
  exec-Answered d g cmd l i = elim (Bool-cases (d.succeeds l (exec_run g cmd))) [
    | inl answered ↦ rw answered (
        returns
          (λ z. record { earlier = l; last = refl; zero_code = z; holds_earlier = i }, stays _ l i))
    | inr failed ↦ rw failed (raises tt)
  ]
