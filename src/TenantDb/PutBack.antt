-- ===== src/TenantDb/PutBack.antt =====
-- `_put_back`: the container that was set aside comes back, or one of the calls has been refused.
use relay_agent.Base.{
  Bool-cases, List, Option-cases, String, ap, false, inl, inr, none, refl, some, true, ℕ, ◌∙◌, ◌∷◌,
  ◌≡◌, ◌≢◌,
}
use relay_agent.Docker.{
  Action, Call, Daemon, Done, catch, get_container, remove, rename, start, ◌>>=◌, ◌>>◌,
}
use relay_agent.Docker.Aside.{Spares}
use relay_agent.Docker.Ends.{Ends, Ends-bind, raises, returns}
use relay_agent.Docker.Extends.{Extends, Makes-bind, after, unchanged}
use relay_agent.Docker.Objects.{ask, catch_missing, look_up, refusal, suppress_missing}
use relay_agent.Docker.Objects.Rules.{
  Makes-ask, bind-Extends, look_up-finds, suppress_missing-Extends,
}
use relay_agent.TenantDb.Ensure.{put_back}

-- What was found under the name, if anything, has been told to go.
pub data Discarded (d : Daemon) (name : String) (log : List Call) : List Call → Type 0 where
  nothing_there : d.finds log name ≡ none → Discarded d name log (get_container name ∷ log)
  told_to_go :
      {g : ℕ}
      → d.finds log name ≡ some g
      → Discarded d name log (remove g true ∷ get_container name ∷ log)

-- The old container has its name again and has been started.
pub record IsBack (d : Daemon) (name : String) (h : ℕ) (log l : List Call) : Type 0 where
  pub cleared : List Call
  pub last_two : l ≡ start h ∷ rename h name ∷ cleared
  pub discarded : Discarded d name log cleared
  pub renamed : d.succeeds cleared (rename h name) ≡ true
  pub started : d.succeeds (rename h name ∷ cleared) (start h) ≡ true

-- How it fails: the start or the renaming was refused; or the search for a partial replacement or its
-- removal failed, but not by NotFound.
pub data Fails (d : Daemon) (name : String) (h : ℕ) (log : List Call) : List Call → Type 0 where
  start_refused :
      {l : List Call}
      → Discarded d name log l
      → d.succeeds l (rename h name) ≡ true
      → d.succeeds (rename h name ∷ l) (start h) ≡ false
      → Fails d name h log (start h ∷ rename h name ∷ l)
  rename_refused :
      {l : List Call}
      → Discarded d name log l
      → d.succeeds l (rename h name) ≡ false
      → Fails d name h log (rename h name ∷ l)
  search_failed :
      d.finds log name ≡ none
      → d.missing log (get_container name) ≡ false
      → Fails d name h log (get_container name ∷ log)
  removal_failed :
      {g : ℕ}
      → d.finds log name ≡ some g
      → d.succeeds (get_container name ∷ log) (remove g true) ≡ false
      → d.missing (get_container name ∷ log) (remove g true) ≡ false
      → Fails d name h log (remove g true ∷ get_container name ∷ log)

module _ (d : Daemon) (name : String) (h : ℕ) where
  abbrev discard_partial : Action Done
  discard_partial = suppress_missing (do g ← look_up d name; ask d (remove g true))

  discard_partial-Ends :
      (l : List Call) → Ends (λ _ l'. Discarded d name l l') (Fails d name h l) (discard_partial l)
  unfolding suppress_missing catch_missing catch ◌>>=◌ look_up ask refusal
  discard_partial-Ends l = elim (Option-cases (d.finds l name)) [
    | inl nothing ↦ elim (Bool-cases (d.missing l (get_container name))) [
      | inl gone ↦ rw nothing (rw gone (returns (nothing_there nothing)))
      | inr broken ↦ rw nothing (rw broken (raises (search_failed nothing broken)))
    ]
    | inr (g, partial) ↦
        let l' = get_container name ∷ l in
        elim (Bool-cases (d.succeeds l' (remove g true))) [
          | inl done ↦ rw partial (rw done (returns (told_to_go partial)))
          | inr failed ↦ elim (Bool-cases (d.missing l' (remove g true))) [
            | inl gone ↦ rw partial (rw failed (rw gone (returns (told_to_go partial))))
            | inr broken ↦
                rw partial (rw failed (rw broken (raises (removal_failed partial failed broken))))
          ]
        ]
  ]

  rename_and_start-Ends :
      (log l : List Call)
      → Discarded d name log l
      → Ends
          (λ _ l'. IsBack d name h log l')
          (Fails d name h log)
          ((ask d (rename h name) >> ask d (start h)) l)
  unfolding ◌>>=◌ ask
  rename_and_start-Ends log l gone = elim (Bool-cases (d.succeeds l (rename h name))) [
    | inr refused ↦ rw refused (raises (rename_refused gone refused))
    | inl renames ↦ elim (Bool-cases (d.succeeds (rename h name ∷ l) (start h))) [
      | inl starts ↦ rw renames (
          rw starts (
            returns (record {
              cleared = l;
              last_two = refl;
              discarded = gone;
              renamed = renames;
              started = starts;
            })))
      | inr failed ↦ rw renames (rw failed (raises (start_refused gone renames failed)))
    ]
  ]

  -- `_put_back` returns only once what it found under the name was told to go, and the old container
  -- has been renamed back and started; where it raises, the start or the renaming was refused, or
  -- the search for a partial replacement or its removal failed, but not by NotFound.
  pub put_back-PutBack :
      (l : List Call) → Ends (λ _ l'. IsBack d name h l l') (Fails d name h l) (put_back d name h l)
  unfolding put_back
  put_back-PutBack l =
      Ends-bind _ _ l (discard_partial-Ends l) λ _ l' gone. rename_and_start-Ends l l' gone

  -- Only what is found under the name is removed.
  pub put_back-Spares :
      (l : List Call) → d.finds l name ≢ some h → Extends (Spares h) l (put_back d name h l).1
  unfolding put_back look_up
  put_back-Spares l hidden =
      bind-Extends _ _ l
        (suppress_missing-Extends _ l (
          bind-Extends _ _ l (after tt unchanged) λ g found_g.
            Makes-ask d (remove g true)
              (λ eq. hidden (look_up-finds d name l g found_g ∙ ap some eq))))
        λ _ _. Makes-bind _ _ (Makes-ask d (rename h name) tt) λ _. Makes-ask d (start h) tt
