-- ===== src/Container/Views.antt =====
-- agent/commands/container.py: `inspect`, `logs` and `list`, which pass on what the daemon answers.
-- Texts are lists of code points.
use relay_agent.Base.{
  Bool, List, Option, String, Text, [], if◌then◌else◌, leb, none, some, suc, zero, ℕ, ◌&&◌, ◌==◌,
  ◌||◌, ◌∷◌,
}

-- What is read of a container's attributes, with none where a key is missing that may be
pub record Attributes : Type 0 where
  pub id : String
  pub name : Text
  pub status : String
  pub image : String
  pub created : String
  pub nano_cpus : Option ℕ
  pub memory : Option ℕ
  pub cmd : Option (List String)
  pub image_id : Option String

abbrev pub listed_or_none : Option (List String) → List String
listed_or_none none = []
listed_or_none (some cmd) = cmd

-- `lstrip("/")`
unfoldable pub without_first_slashes : Text → Text
without_first_slashes [] = []
without_first_slashes (c ∷ s) =
    let shorter = without_first_slashes s in if c == b'/' then shorter else c ∷ s

-- The reply of `inspect`
pub record Inspected : Type 0 where
  pub attributes : Attributes
  pub shown_name : Text
  pub shown_cmd : List String

unfoldable pub inspect : Attributes → Inspected
unfolding without_first_slashes
inspect a = record {
  attributes = a;
  shown_name = without_first_slashes a.name;
  shown_cmd = listed_or_none a.cmd;
}

-- One container of `list`
pub record Summary : Type 0 where
  pub id : String
  pub short_id : String
  pub name : String
  pub status : String
  pub image : String

pub record Listed : Type 0 where
  pub id : String
  pub short_id : String
  pub name : String
  pub status : String
  pub tags : List String
  pub image_short_id : String

abbrev pub first_tag : List String → String → String
first_tag [] short_id = short_id
first_tag (tag ∷ _) short_id = tag

abbrev pub summary : Listed → Summary
summary c = record {
  id = c.id;
  short_id = c.short_id;
  name = c.name;
  status = c.status;
  image = first_tag c.tags c.image_short_id;
}

unfoldable pub list : List Listed → List Summary
list [] = []
list (c ∷ cs) = summary c ∷ list cs

-- `\x1b\[[0-9;]*m`: how long a match is that has begun
abbrev pub is_parameter : ℕ → Bool
is_parameter c = (leb b'0' c && leb c b'9') || c == b';'

abbrev pub one_more : Option ℕ → Option ℕ
one_more none = none
one_more (some n) = some (suc n)

unfoldable pub to_end : Text → Option ℕ
to_end [] = none
to_end (c ∷ s) =
    let longer = one_more (to_end s) in
    if c == b'm' then some 1 else if is_parameter c then longer else none

abbrev pub after_bracket : Text → Option ℕ
after_bracket [] = none
after_bracket (c ∷ s) = if c == b'[' then one_more (to_end s) else none

unfoldable pub sequence_length : ℕ → Text → Option ℕ
unfolding to_end
sequence_length c s = if c == 27 then after_bracket s else none

abbrev pub skip_or_keep : Option ℕ → ℕ → (ℕ → Text) → Text
skip_or_keep none c later = c ∷ later 0
skip_or_keep (some n) c later = later n

-- `_ANSI_RE.sub("", text)`: `left` characters belong to the last match.
unfoldable pub strip_ansi : ℕ → Text → Text
unfolding sequence_length
strip_ansi left [] = []
strip_ansi zero (c ∷ s) = skip_or_keep (sequence_length c s) c (λ left. strip_ansi left s)
strip_ansi (suc left) (c ∷ s) = strip_ansi left s

-- `decode` and `split_lines` are Python's.
unfoldable pub logs : (List ℕ → Text) → (Text → List Text) → List ℕ → List Text
unfolding strip_ansi
logs decode split_lines raw = split_lines (strip_ansi 0 (decode raw))
