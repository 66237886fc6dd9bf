-- ===== src/Container/HostPty.antt =====
-- agent/commands/host_shell.py: the two loops of `run_pty_blocking`, the one that takes the items of
-- the queue and the one that reads from the terminal.
use relay_agent.Base.{
  Bool, Bool-cases, List, Option, [], ap, false, if◌then◌else◌, inl, inr, length, none, refl, some,
  true, ℕ, ◌∙◌, ◌∷◌, ◌≡◌,
}
use relay_agent.Container.Drained.{drains, drains-pump, given_items, lengths}
use relay_agent.Container.Pty.{
  Effect, Item, Round, Run, close, data_item, drained, lost, on_item, pump, resize, resized, sent,
}

-- A round of the first loop; `has_exited` is what `poll` says of the shell where the queue is
-- empty, `takes_it` whether `os.write` succeeds, as if it then took all bytes.
pub record HostRound : Type 0 where
  is_stopped : Bool
  given : Option Item
  takes_it : Bool
  has_exited : Bool

abbrev on_host_item : Option Item → Bool → Bool → List Effect → List Effect
on_host_item none takes_it has_exited rest = if has_exited then [] else rest
on_host_item (some (data_item b)) takes_it has_exited rest =
    if takes_it then sent b ∷ drained (length b) ∷ rest else lost b ∷ drained (length b) ∷ []
on_host_item (some (resize cols rows)) takes_it has_exited rest = resized cols rows ∷ rest
on_host_item (some close) takes_it has_exited rest = []

unfoldable pub host_pump : List HostRound → List Effect
host_pump [] = []
host_pump (r ∷ rounds) =
    let rest = host_pump rounds in
    if r.is_stopped then [] else on_host_item r.given r.takes_it r.has_exited rest

-- What `select` and `os.read` give in a round of the second loop
data ReadResult : Type 0 where
  not_ready would_block read_error : ReadResult
  chunk : List ℕ → ReadResult

abbrev on_read : ReadResult → List (List ℕ) → List (List ℕ)
on_read not_ready rest = rest
on_read would_block rest = rest
on_read read_error rest = []
on_read (chunk []) rest = []
on_read (chunk (c ∷ b)) rest = (c ∷ b) ∷ rest

-- The chunks that the second loop passes on; a round has whether the session is stopped.
unfoldable read_chunks : List (Bool × ReadResult) → List (List ℕ)
read_chunks [] = []
read_chunks ((is_stopped, r) ∷ rounds) =
    let rest = read_chunks rounds in if is_stopped then [] else on_read r rest

-- A shell that is gone counts as a close.
abbrev or_close : Option Item → Bool → Option Item
or_close none has_exited = if has_exited then some close else none
or_close (some i) has_exited = some i

abbrev as_round : HostRound → Round
as_round r = record {
  is_stopped = r.is_stopped;
  given = or_close r.given r.has_exited;
  takes_it = r.takes_it;
}

unfoldable as_rounds : List HostRound → List Round
as_rounds [] = []
as_rounds (r ∷ rounds) = as_round r ∷ as_rounds rounds

on_host_item-on_item :
    (o : Option Item) (takes_it has_exited : Bool) (rounds : List Round) (rest : Run)
    → on_host_item o takes_it has_exited rest.0
      ≡ (on_item (or_close o has_exited) takes_it rounds rest).0
on_host_item-on_item none takes_it true rounds rest = refl
on_host_item-on_item none takes_it false rounds rest = refl
on_host_item-on_item (some (data_item b)) true has_exited rounds rest = refl
on_host_item-on_item (some (data_item b)) false has_exited rounds rest = refl
on_host_item-on_item (some (resize cols rows)) takes_it has_exited rounds rest = refl
on_host_item-on_item (some close) takes_it has_exited rounds rest = refl

-- The loop of the host's shell does what the loop of a container's terminal does, where a shell
-- that is gone is a close in the queue.
host_pump-pump : (rounds : List HostRound) → host_pump rounds ≡ (pump (as_rounds rounds)).0
unfolding host_pump pump as_rounds
host_pump-pump [] = refl
host_pump-pump (r ∷ rounds) = elim (Bool-cases r.is_stopped) [
  | inl stopped ↦ rw stopped refl
  | inr going ↦ rw going (
      rw (host_pump-pump rounds) (
        on_host_item-on_item r.given r.takes_it r.has_exited (as_rounds rounds)
          (pump (as_rounds rounds))))
]

-- The loop of the host's shell, too, drains every data item that it takes exactly once.
drains-host_pump :
    (rounds : List HostRound) → drains (host_pump rounds) ≡ lengths (given_items (as_rounds rounds))
drains-host_pump rounds = ap drains (host_pump-pump rounds) ∙ drains-pump (as_rounds rounds)
