-- ===== src/Container/Colours.antt =====
-- What is left of a log whose colours are stripped.
use relay_agent.Base.{
  All, List, Text, [], all, any, ap, arith, false, length, refl, some, suc, true, ◌++◌, ◌==◌, ◌∙◌,
  ◌∷◌, ◌≡◌,
}
use relay_agent.Container.Views.{is_parameter, sequence_length, strip_ansi, to_end}

-- A colour, `\x1b[` with its parameters and `m`, in front of text without an escape
abbrev Piece : Type 0
Piece = Text × Text

abbrev IsPiece : Piece → Type 0
IsPiece (parameters, text) =
    (all is_parameter parameters ≡ true) × (any (λ c. c == 27) text ≡ false)

abbrev coloured : List Piece → Text
coloured [] = []
coloured ((parameters, text) ∷ ps) = 27 ∷ b'[' ∷ (parameters ++ b'm' ∷ (text ++ coloured ps))

abbrev plain : List Piece → Text
plain [] = []
plain ((parameters, text) ∷ ps) = text ++ plain ps

to_end-length :
    (parameters s : Text)
    → all is_parameter parameters ≡ true
    → to_end (parameters ++ b'm' ∷ s) ≡ some (suc (length parameters))
unfolding to_end
to_end-length [] s h = refl
to_end-length (c ∷ parameters) s h = ground (arith, h, to_end-length parameters s)

strip_ansi-skips :
    (parameters s : Text)
    → strip_ansi (suc (length parameters)) (parameters ++ b'm' ∷ s) ≡ strip_ansi 0 s
unfolding strip_ansi
strip_ansi-skips [] s = refl
strip_ansi-skips (c ∷ parameters) s = strip_ansi-skips parameters s

strip_ansi-keeps :
    (text s : Text)
    → any (λ c. c == 27) text ≡ false
    → strip_ansi 0 (text ++ s) ≡ text ++ strip_ansi 0 s
unfolding strip_ansi sequence_length
strip_ansi-keeps [] s h = refl
strip_ansi-keeps (c ∷ text) s h = ground (arith, h, strip_ansi-keeps text s)

-- Of a log made of colours and texts without an escape, `logs` keeps just the texts.
strip_ansi-coloured : (ps : List Piece) → All IsPiece ps → strip_ansi 0 (coloured ps) ≡ plain ps
unfolding strip_ansi sequence_length
strip_ansi-coloured [] h = refl
strip_ansi-coloured ((parameters, text) ∷ ps) ((p, t), h) =
    rw (to_end-length parameters (text ++ coloured ps) p) (
      strip_ansi-skips parameters (text ++ coloured ps)
      ∙ strip_ansi-keeps text (coloured ps) t
      ∙ ap (λ r. text ++ r) (strip_ansi-coloured ps h))
