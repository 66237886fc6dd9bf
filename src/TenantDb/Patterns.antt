-- ===== src/TenantDb/Patterns.antt =====
-- agent/commands/tenantdb.py: the patterns by which it checks paths and file names.
-- `A-Za-z0-9_.-`
use relay_agent.Base.{
  Bool, Option, String, Text, [], all, false, if◌then◌else◌, leb, length, none, not, same, some,
  true, ℕ, ◌&&◌, ◌==◌, ◌||◌, ◌∷◌,
}
use relay_agent.Docker.{codes}
use relay_agent.Slug.{before_end, is_lower_or_digit, is_nonempty, is_word_char}
use relay_agent.Slug.Component.{has}

abbrev pub is_file_char : ℕ → Bool
is_file_char c = is_word_char c || c == b'.' || c == b'-'

abbrev pub is_hex_digit : ℕ → Bool
is_hex_digit c = (leb b'a' c && leb c b'f') || (leb b'0' c && leb c b'9')

abbrev pub is_slug_char : ℕ → Bool
is_slug_char c = is_lower_or_digit c || c == b'-'

unfoldable pub strip_prefix : Text → Text → Option Text
strip_prefix [] s = some s
strip_prefix (c ∷ p) [] = none
strip_prefix (c ∷ p) (x ∷ s) = let rest = strip_prefix p s in if c == x then rest else none

-- The longest part at the beginning that a class takes, and the rest
unfoldable pub span : (ℕ → Bool) → Text → Text × Text
span p [] = ([], [])
span p (c ∷ s) = let (taken, rest) = span p s in if p c then (c ∷ taken, rest) else ([], c ∷ s)

-- `_RESTORE_FILE_RE` after its fixed beginning: eight digits and the suffix.
abbrev pub has_id : Option Text → Bool
has_id none = false
has_id (some s) =
    length (span is_hex_digit s).0 == 8
    && same (before_end (span is_hex_digit s).1) (codes ".pgdump")

unfoldable pub is_restore_file : Text → Bool
unfolding strip_prefix span before_end
is_restore_file s = same s (codes "restore.pgdump") || has_id (strip_prefix (codes "restore_") s)

unfoldable pub without_last_slashes : Text → Text
without_last_slashes [] = []
without_last_slashes (c ∷ s) =
    let rest = without_last_slashes s in
    if c == b'/' && not (is_nonempty rest) then [] else c ∷ rest

abbrev pub is_name : Text → Bool
is_name s = is_nonempty s && all is_file_char s

-- `re.fullmatch` of a file or directory right below the scratch volume
abbrev pub is_scratch_item : Option Text → Bool
is_scratch_item none = false
is_scratch_item (some s) = is_name s

-- `path.rsplit("/", 1)[-1]`
unfoldable pub last_part : Text → Text
last_part [] = []
last_part (c ∷ s) =
    let rest = last_part s in
    let slashes = has b'/' s in if slashes then rest else if c == b'/' then s else c ∷ s

unfoldable pub is_exportable : Text → Bool
unfolding strip_prefix last_part
is_exportable path =
    (same path (codes "/wal_archive") || is_scratch_item (strip_prefix (codes "/scratch/") path))
    && not (same (last_part path) (codes ".") || same (last_part path) (codes ".."))

-- The end of `_OP_PATH_RE`: one name, or two with a slash between them
abbrev pub is_second_name : Text → Bool
is_second_name [] = true
is_second_name (c ∷ s) = c == b'/' && is_name s

abbrev pub is_op_tail : Text → Bool
is_op_tail s = is_nonempty (span is_file_char s).0 && is_second_name (span is_file_char s).1

-- Its middle: the slug, a slash and the names
abbrev pub op_slug : Text × Text → Option Text
op_slug (slug, []) = none
op_slug (slug, c ∷ s) =
    if is_nonempty slug && c == b'/' && is_op_tail (before_end s) then some slug else none

abbrev pub after_beginning : Option Text → Option Text
after_beginning none = none
after_beginning (some s) = op_slug (span is_slug_char s)

-- `match.group(1)` where `_OP_PATH_RE` matches
unfoldable pub op_path : Text → Option Text
unfolding strip_prefix span before_end
op_path rel = after_beginning (strip_prefix (codes "_tenantdb/") rel)

abbrev pub is_same : Option Text → Text → Bool
is_same none s = false
is_same (some t) s = same t s

-- `".." in rel`
unfoldable pub has_two_dots : Text → Bool
has_two_dots [] = false
has_two_dots (_ ∷ []) = false
has_two_dots (c ∷ x ∷ s) = (c == b'.' && x == b'.') || has_two_dots (x ∷ s)

unfoldable pub is_op_path : String → Text → Bool
unfolding op_path has_two_dots
is_op_path slug rel = is_same (op_path rel) (codes slug) && not (has_two_dots rel)
