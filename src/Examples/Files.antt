-- ===== src/Examples/Files.antt =====
-- agent/commands/fs.py: a directory with one file.
use relay_agent.Base.{
  All, List, Text, [], arith, if◌then◌else◌, length, ltb, none, refl, same, some, suc, true, zero,
  ℕ, ◌++◌, ◌<◌, ◌∷◌, ◌≡◌, ◌≤◌, ◌⊎◌,
}
use relay_agent.Base.Int.{negsuc, pos}
use relay_agent.Docker.{codes}
use relay_agent.Fs.Confined.{
  held_by, meant, open_after, open_after-open_dir_fd, relative_parts-Plain,
}
use relay_agent.Fs.Cursor.{
  DirFrame, cursor, has_char, is_unsafe, raw_onto, split_path, valid, validate_list_cursor,
}
use relay_agent.Fs.Handed.{IsChain, chain_child, chain_root}
use relay_agent.Fs.Listing.{AreProper, IsReply, list_dir-IsReply}
use relay_agent.Fs.Pages.{
  IsListable, StaysBelow, validate_list_cursor-IsListable, validate_list_cursor-cursor,
}
use relay_agent.Fs.Paths.{
  OpenResult, file_exists, is_symlink, mkdir_fd, open_dir_fd, opens, parent_fd, relative_parts,
  relative_to,
}
use relay_agent.Fs.Plain.{is_plain}
use relay_agent.Fs.Ranges.{max_read_chunk, read_bytes, read_bytes_bounds}
use relay_agent.Fs.Walk.{
  Entry, Opened, after_entry, after_open, after_scan, entries, insert, is_page_full, list_dir,
  list_from, not_opened, page, precedes, present, regular, scan, scan_start, sorted_after, visit,
}

abbrev tree : ℕ → Text → Opened
tree rounds [] = entries (codes "a.txt" ∷ [])
tree rounds (_ ∷ _) = not_opened

abbrev kinds : ℕ → Text → Entry
kinds rounds path = regular 12

tree-AreProper : (rounds : ℕ) (dir : Text) → AreProper tree kinds (tree rounds dir)
unfolding has_char same
tree-AreProper rounds [] = ((refl, refl, refl, refl), tt)
tree-AreProper rounds (_ ∷ _) = tt

list_dir-IsReply_example :
    IsReply tree kinds tree-AreProper (list_dir tree kinds 40128 true none present)
list_dir-IsReply_example =
    list_dir-IsReply tree kinds tree-AreProper 40128 true none present (omega arith)

one_file : list_dir tree kinds 2 true none present ≡ page ((codes "a.txt", 12) ∷ []) none
unfolding list_dir list_from after_open after_scan scan scan_start visit after_entry is_page_full
    sorted_after precedes insert
one_file = refl

abbrev at_sub : DirFrame
at_sub = record { path = []; after = codes "sub" }

abbrev in_sub : DirFrame
in_sub = record { path = codes "sub"; after = codes "x" }

in_sub-IsChain : IsChain (in_sub ∷ at_sub ∷ [])
unfolding has_char is_unsafe split_path same
in_sub-IsChain = chain_child refl refl (refl, refl) (chain_root (refl, refl))

validate_list_cursor-cursor_example :
    validate_list_cursor (cursor true (some (raw_onto (in_sub ∷ at_sub ∷ []) [])))
    ≡ valid (in_sub ∷ at_sub ∷ [])
validate_list_cursor-cursor_example =
    validate_list_cursor-cursor in_sub (at_sub ∷ []) in_sub-IsChain (omega arith)

validate_list_cursor-IsListable_example :
    IsListable (in_sub ∷ at_sub ∷ []) × All (λ f. StaysBelow f.path) (in_sub ∷ at_sub ∷ [])
validate_list_cursor-IsListable_example =
    validate_list_cursor-IsListable (cursor true (some (raw_onto (in_sub ∷ at_sub ∷ []) [])))
      (in_sub ∷ at_sub ∷ [])
      (validate_list_cursor-cursor in_sub (at_sub ∷ []) in_sub-IsChain (omega arith))

-- A system that reads one byte at a time, of a file of three bytes.
abbrev one_byte : ℕ → ℕ → List ℕ
one_byte o zero = []
one_byte o (suc n) = if ltb o 3 then 7 ∷ [] else []

one_byte_short : (o n : ℕ) → length (one_byte o n) ≤ n
one_byte_short o zero = omega arith
one_byte_short o (suc n) = ground arith

one_byte_some : (o n : ℕ) → o < 3 → 1 ≤ n → 1 ≤ length (one_byte o n)
one_byte_some o zero a b = b
one_byte_some o (suc n) a b = ground arith

read_bytes_bounds_example :
    (length (read_bytes one_byte 3 (pos 1) (negsuc 4)).0 ≤ max_read_chunk)
    × (((read_bytes one_byte 3 (pos 1) (negsuc 4)).1 ≡ true)
        ⊎ (1 ≤ length (read_bytes one_byte 3 (pos 1) (negsuc 4)).0))
read_bytes_bounds_example =
    read_bytes_bounds one_byte 3 (pos 1) (negsuc 4) one_byte_short one_byte_some

relative_parts-Plain_example :
    All (λ c. is_plain c ≡ true) (codes "odoo.conf" ∷ codes "acme" ∷ [])
    × ((meant (codes "data" ∷ []) (codes "acme/x/../odoo.conf")
          ≡ (codes "odoo.conf" ∷ codes "acme" ∷ []) ++ codes "data" ∷ [])
        ⊎ (meant (codes "data" ∷ []) (codes "acme/x/../odoo.conf")
            ≡ (codes "odoo.conf" ∷ codes "acme" ∷ []) ++ codes "data" ∷ []))
unfolding is_plain relative_parts same relative_to split_path
relative_parts-Plain_example =
    relative_parts-Plain (codes "data" ∷ []) (codes "data" ∷ []) (codes "acme/x/../odoo.conf")
      (codes "odoo.conf" ∷ codes "acme" ∷ []) refl

abbrev link_in_second : ℕ → Text → OpenResult
link_in_second zero part = opens
link_in_second (suc fd) part = is_symlink

open_after-open_dir_fd_example :
    (open_after [] (open_dir_fd link_in_second (codes "acme" ∷ codes "conf" ∷ [])).0
      ≡ held_by (open_dir_fd link_in_second (codes "acme" ∷ codes "conf" ∷ [])).1)
    × (open_after [] (parent_fd link_in_second (codes "acme" ∷ codes "conf" ∷ [])).0 ≡ [])
    × (open_after []
          (mkdir_fd (λ fd part. file_exists) link_in_second (codes "acme" ∷ codes "conf" ∷ [])).0
        ≡ [])
open_after-open_dir_fd_example =
    open_after-open_dir_fd link_in_second (λ fd part. file_exists)
      (codes "acme" ∷ codes "conf" ∷ [])
