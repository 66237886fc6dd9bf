-- ===== src/Slug.antt =====
-- The patterns by which `agent/commands/tenantdb.py` and `agent/commands/instance.py` check names.
-- A pattern that ends in `$` also matches a text with a newline after it, which `re.match` takes.
pub mod Component
use relay_agent.Base.{
  Bool, Text, [], all, false, if◌then◌else◌, leb, length, true, ℕ, ◌&&◌, ◌==◌, ◌||◌, ◌∷◌,
}

abbrev pub is_lower_or_digit : ℕ → Bool
is_lower_or_digit c = (leb b'a' c && leb c b'z') || (leb b'0' c && leb c b'9')

abbrev pub is_word_char : ℕ → Bool
is_word_char c = is_lower_or_digit c || (leb b'A' c && leb c b'Z') || c == b'_'

-- What `$` matches before: the text without one newline at its end.
unfoldable pub before_end : Text → Text
before_end [] = []
before_end (c ∷ []) = if c == 10 then [] else c ∷ []
before_end (c ∷ d ∷ s) = c ∷ before_end (d ∷ s)

-- `[a-z0-9]` and then up to 62 characters of another class
abbrev pub has_shape : (ℕ → Bool) → Text → Bool
has_shape is_inner [] = false
has_shape is_inner (c ∷ s) = is_lower_or_digit c && all is_inner s && leb (length s) 62

-- `_SLUG_RE` of the tenant databases: the later characters may be dashes.
unfoldable pub is_tenant_slug : Text → Bool
unfolding before_end
is_tenant_slug s = has_shape (λ c. is_lower_or_digit c || c == b'-') (before_end s)

-- `_SLUG_RE` of the instances: dashes and underscores.
unfoldable pub is_instance_slug : Text → Bool
unfolding before_end
is_instance_slug s = has_shape (λ c. is_lower_or_digit c || c == b'-' || c == b'_') (before_end s)

abbrev pub is_nonempty : Text → Bool
is_nonempty [] = false
is_nonempty (_ ∷ _) = true

-- `_SAFE_RE`
unfoldable pub is_ident : Text → Bool
unfolding before_end
is_ident s = is_nonempty (before_end s) && all is_word_char (before_end s)

-- `s.startswith(p)`
unfoldable pub starts_with : Text → Text → Bool
starts_with [] s = true
starts_with (c ∷ p) [] = false
starts_with (c ∷ p) (x ∷ s) = c == x && starts_with p s
