-- ===== src/Container/Drained.antt =====
-- What the loop has drained, against what the queue has given.
use relay_agent.Base.{
  Bool, Bool-cases, List, Option, [], ap, false, if◌then◌else◌, inl, inr, length, none, refl, some,
  true, ℕ, ◌∷◌, ◌≡◌,
}
use relay_agent.Container.Pty.{
  Effect, Item, Round, Run, close, data_item, drained, on_item, pump, resize,
}

-- The data items that the queue has given up to the first round that ends the loop: a stop, a
-- close, or bytes that the terminal does not take, these bytes included.
abbrev pub with_item : Option Item → Bool → List (List ℕ) → List (List ℕ)
with_item (some (data_item b)) takes_it later = if takes_it then b ∷ later else b ∷ []
with_item (some close) takes_it later = []
with_item _ takes_it later = later

unfoldable pub given_items : List Round → List (List ℕ)
given_items [] = []
given_items (r ∷ rounds) =
    let later = given_items rounds in
    if r.is_stopped then [] else with_item r.given r.takes_it later

unfoldable pub drains : List Effect → List ℕ
drains [] = []
drains (drained n ∷ es) = n ∷ drains es
drains (_ ∷ es) = drains es

abbrev pub lengths : List (List ℕ) → List ℕ
lengths [] = []
lengths (b ∷ bs) = length b ∷ lengths bs

drains-on_item :
    (o : Option Item) (takes_it : Bool) (rounds : List Round) (rest : Run) (later : List (List ℕ))
    → drains rest.0 ≡ lengths later
    → drains (on_item o takes_it rounds rest).0 ≡ lengths (with_item o takes_it later)
unfolding drains
drains-on_item none takes_it rounds rest later h = h
drains-on_item (some (data_item b)) true rounds rest later h = ap (λ t. length b ∷ t) h
drains-on_item (some (data_item b)) false rounds rest later h = refl
drains-on_item (some (resize cols rows)) takes_it rounds rest later h = h
drains-on_item (some close) takes_it rounds rest later h = refl

-- Every data item that the loop takes is drained exactly once, with its full length and in order,
-- also the one that the terminal does not take; after a stop, a close or such an item nothing is.
pub drains-pump : (rounds : List Round) → drains (pump rounds).0 ≡ lengths (given_items rounds)
unfolding pump given_items drains
drains-pump [] = refl
drains-pump (r ∷ rounds) = elim (Bool-cases r.is_stopped) [
  | inl stopped ↦ rw stopped refl
  | inr going ↦
      rw going (drains-on_item r.given r.takes_it rounds (pump rounds) _ (drains-pump rounds))
]
