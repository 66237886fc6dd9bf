-- ===== src/Container/Pty.antt =====
-- agent/commands/container.py and agent/commands/host_shell.py: the loop that takes the items of a
-- terminal's queue. One round of the loop is what it finds: whether the session is stopped, what
-- the queue gives within a tenth of a second, and whether the terminal takes the bytes.
use relay_agent.Base.{Bool, List, Option, [], if◌then◌else◌, length, none, some, ℕ, ◌++◌, ◌∷◌}

pub data Item : Type 0 where
  data_item : List ℕ → Item
  resize : ℕ → ℕ → Item
  close : Item

pub record Round : Type 0 where
  pub is_stopped : Bool
  pub given : Option Item
  pub takes_it : Bool

-- What the loop does, in order
pub data Effect : Type 0 where
  sent : List ℕ → Effect
  lost : List ℕ → Effect
  drained : ℕ → Effect
  resized : ℕ → ℕ → Effect

-- Effects, and the rounds that are left where the loop has ended; with none, it goes on.
abbrev pub Run : Type 0
Run = List Effect × Option (List Round)

abbrev pub before_run : List Effect → Run → Run
before_run es r = (es ++ r.0, r.1)

abbrev pub on_item : Option Item → Bool → List Round → Run → Run
on_item none takes_it rounds rest = rest
on_item (some (data_item b)) takes_it rounds rest =
    if takes_it
    then before_run (sent b ∷ drained (length b) ∷ []) rest
    else (lost b ∷ drained (length b) ∷ [], some rounds)
on_item (some (resize cols rows)) takes_it rounds rest = before_run (resized cols rows ∷ []) rest
on_item (some close) takes_it rounds rest = ([], some rounds)

unfoldable pub pump : List Round → Run
pump [] = ([], none)
pump (r ∷ rounds) =
    let rest = pump rounds in
    if r.is_stopped then ([], some rounds) else on_item r.given r.takes_it rounds rest
