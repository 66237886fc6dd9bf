-- ===== src/Shell/Words.antt =====
-- The shell reads a quoted text back as one word, whatever the text holds.
use mathlib.Core.List.{append-nil, append_assoc}
use relay_agent.Base.{
  Bool-cases, List, [], all, ap, arith, false, inl, inr, refl, some, subst, sym, true, ℕ, ◌++◌,
  ◌==◌, ◌∙◌, ◌∷◌, ◌≡◌,
}
use relay_agent.Shell.{escape, gap, is_safe, move, push, quote, single, word, words_from}

move-word_safe : (c : ℕ) → is_safe c ≡ true → move word c ≡ push word
unfolding move
move-word_safe c h = ground arith

move-gap_safe : (c : ℕ) → is_safe c ≡ true → move gap c ≡ push word
unfolding move
move-gap_safe c h = ground arith

move-single_plain : (c : ℕ) → (c == 39) ≡ false → move single c ≡ push single
unfolding move
move-single_plain c h = ground arith

safe_word :
    (w s rest : List ℕ)
    → all is_safe s ≡ true
    → words_from word w (s ++ rest) ≡ words_from word (w ++ s) rest
unfolding words_from
safe_word w [] rest h = rw append-nil
safe_word w (c ∷ s) rest h =
    rw (move-word_safe c (ground arith), words_from)
      (safe_word (w ++ c ∷ []) s rest (ground arith)
        ∙ ap (λ v. words_from word v rest) (append_assoc w (c ∷ []) s))

escaped_word :
    (w s rest : List ℕ) → words_from single w (escape s ++ rest) ≡ words_from single (w ++ s) rest
unfolding words_from escape
escaped_word w [] rest = rw append-nil
escaped_word w (c ∷ s) rest = elim (Bool-cases (c == 39)) [
  | inl tick ↦
      subst
        (λ x. words_from single w (escape (x ∷ s) ++ rest) ≡ words_from single (w ++ x ∷ s) rest)
        (sym (is_tick tick))
        (escaped_word (w ++ 39 ∷ []) s rest
          ∙ ap (λ v. words_from single v rest) (append_assoc w (39 ∷ []) s))
  | inr plain ↦
      rw (plain, move-single_plain c plain, words_from)
        (escaped_word (w ++ c ∷ []) s rest
          ∙ ap (λ v. words_from single v rest) (append_assoc w (c ∷ []) s))
]
  where
    is_tick : (c == 39) ≡ true → c ≡ 39
    is_tick h = ground arith

-- A quoted text is the next word, or goes on with the word that has begun.
pub quoted_word : (s rest : List ℕ) → words_from gap [] (quote s ++ rest) ≡ words_from word s rest
unfolding quote words_from
quoted_word [] rest = refl
quoted_word (c ∷ s) rest = elim (Bool-cases (all is_safe (c ∷ s))) [
  | inl safe ↦
      rw safe
        (rw (move-gap_safe c (ground arith), words_from) (safe_word (c ∷ []) s rest (ground arith)))
  | inr unsafe ↦ rw unsafe (
      ap (words_from single []) (append_assoc (escape (c ∷ s)) (39 ∷ []) rest)
      ∙ escaped_word [] (c ∷ s) (39 ∷ rest))
]

pub quoted_last : (s : List ℕ) → words_from gap [] (quote s) ≡ some (s ∷ [])
unfolding words_from
quoted_last s = ap (words_from gap []) (sym (append-nil (quote s))) ∙ quoted_word s []
