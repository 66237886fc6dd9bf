-- ===== src/Examples/Disks.antt =====
-- agent/commands/fs.py: a disk in memory, whose directories are all there, and a file written to it.
use relay_agent.Base.{
  List, Option, Text, [], ap, arith, if◌then◌else◌, length, none, refl, same, some, subst, suc, sym,
  true, zero, ℕ, ◌++◌, ◌+◌, ◌<◌, ◌∙◌, ◌∷◌, ◌≡◌, ◌≤◌,
}
use relay_agent.Base.Int.{pos}
use relay_agent.Docker.{codes}
use relay_agent.Fs.Cursor.{split_path}
use relay_agent.Fs.Disk.{Disk, directory, gone}
use relay_agent.Fs.Download.{download-upload}
use relay_agent.Fs.Lawful.{IsLawful, Passes, Reads, drop, kept}
use relay_agent.Fs.Lexical.{same_path}
use relay_agent.Fs.Paths.{OpenResult, file_exists, opens, os_error, relative_parts, relative_to}
use relay_agent.Fs.Pieces.{download, upload}

abbrev Files : Type 0
Files = List Text → Option (List ℕ)

abbrev set : Files → List Text → List ℕ → Files
set files p octets q = if same_path p q then some octets else files q

abbrev take : ℕ → List ℕ → List ℕ
take zero xs = []
take (suc n) [] = []
take (suc n) (x ∷ xs) = x ∷ take n xs

abbrev bytes_of : Option (List ℕ) → List ℕ
bytes_of none = []
bytes_of (some octets) = octets

abbrev readable : Option (List ℕ) → OpenResult
readable none = os_error
readable (some octets) = opens

abbrev memory_disk : Disk
memory_disk = record {
  State = Files;
  has_root = λ files. true;
  open_dir = λ files at part. opens;
  make_dir = λ files at part mode. (file_exists, files);
  open_write =
      λ files at file append. (opens, set files (file ∷ at) (kept append (files (file ∷ at))));
  write = λ files at file octets.
      (true, set files (file ∷ at) (bytes_of (files (file ∷ at)) ++ octets));
  open_read = λ files at file. readable (files (file ∷ at));
  read = λ files at file o n. take n (drop o (bytes_of (files (file ∷ at))));
  size = λ files at file. length (bytes_of (files (file ∷ at)));
  unlink = λ files at file. (gone, files);
  rmtree = λ files at file. (gone, files);
  kind_at = λ files at. directory;
  make_dirs = λ files at. (true, files);
  write_archive = λ files source destination. (true, files);
  size_at = λ files at. 0;
}

same_refl : (s : Text) → same s s ≡ true
unfolding same
same_refl [] = refl
same_refl (c ∷ s) = ground (arith, same_refl s)

same_path_refl : (p : List Text) → same_path p p ≡ true
unfolding same_path
same_path_refl [] = refl
same_path_refl (c ∷ p) = rw (same_refl c) (same_path_refl p)

set_self : (files : Files) (p : List Text) (octets : List ℕ) → set files p octets p ≡ some octets
set_self files p octets = rw (same_path_refl p) refl

drop_nil : (n : ℕ) → drop {A = ℕ} n [] ≡ []
drop_nil zero = refl
drop_nil (suc n) = refl

drop-add : (o k : ℕ) (xs : List ℕ) → drop (o + k) xs ≡ drop k (drop o xs)
drop-add zero k xs = let e : zero + k ≡ k = omega arith in ap (λ n. drop n xs) e
drop-add (suc o) k [] = drop_nil (suc o + k) ∙ sym (drop_nil k)
drop-add (suc o) k (x ∷ xs) =
    let e : suc o + k ≡ suc (o + k) = omega arith in ap (λ n. drop n (x ∷ xs)) e ∙ drop-add o k xs

take_and_drop : (n : ℕ) (xs : List ℕ) → take n xs ++ drop (length (take n xs)) xs ≡ xs
take_and_drop zero xs = refl
take_and_drop (suc n) [] = refl
take_and_drop (suc n) (x ∷ xs) = ap (λ r. x ∷ r) (take_and_drop n xs)

length-take : (n : ℕ) (xs : List ℕ) → length (take n xs) ≤ n
length-take zero xs = omega arith
length-take (suc n) [] = omega arith
length-take (suc n) (x ∷ xs) = omega (arith, length-take n xs)

take_some : (o n : ℕ) (xs : List ℕ) → o < length xs → 1 ≤ n → 1 ≤ length (take n (drop o xs))
take_some o zero xs h k = absurd (omega arith)
take_some zero (suc n) [] h k = absurd (omega arith)
take_some zero (suc n) (x ∷ xs) h k = omega arith
take_some (suc o) (suc n) [] h k = absurd (omega arith)
take_some (suc o) (suc n) (x ∷ xs) h k = take_some o (suc n) xs (omega arith) k

take-Reads : (octets : List ℕ) → Reads (λ o n. take n (drop o octets)) octets
take-Reads octets = record {
  read_rest = λ o n.
      ap (λ r. take n (drop o octets) ++ r) (drop-add o (length (take n (drop o octets))) octets)
      ∙ take_and_drop n (drop o octets);
  read_at_most = λ o n. length-take n (drop o octets);
  read_some = λ o n h k. take_some o n octets h k;
}

memory_content : Files → List Text → Text → Option (List ℕ)
memory_content files at file = files (file ∷ at)

all_pass : (files : Files) (at : List Text) → Passes memory_disk files at
all_pass files [] = tt
all_pass files (part ∷ at) = (refl, all_pass files at)

memory_disk-IsLawful : IsLawful memory_disk memory_content
unfolding memory_content
memory_disk-IsLawful = record {
  content-open_write = λ files at file append _. set_self files (file ∷ at) _;
  content-write = λ files at file old more h _.
      set_self files (file ∷ at) _ ∙ ap (λ o. some (bytes_of o ++ more)) h;
  content-make_dir = λ files at dirs file part mode old h. h;
  content-IsReadable = λ files at file octets h. record {
    root_there = refl;
    passes = all_pass files at;
    opens_read = ap readable h;
    reads =
        subst (λ o. Reads (λ k n. take n (drop k (bytes_of o))) octets) (sym h) (take-Reads octets);
    size_length = ap (λ o. length (bytes_of o)) h;
  };
}

abbrev data_root : List Text
data_root = codes "data" ∷ []

-- Two pieces, read back one byte at a time under another spelling of the path.
download-upload_example :
    download memory_disk data_root data_root
      (codes "/data/acme/x/../db")
      (pos 1)
      4
      0
      (upload memory_disk data_root data_root
        (codes "acme/db")
        (1 ∷ 2 ∷ [])
        ((3 ∷ []) ∷ [])
        (λ p. none)).1
    ≡ some (1 ∷ 2 ∷ 3 ∷ [])
unfolding upload relative_parts same relative_to split_path
download-upload_example =
    download-upload memory_disk memory_content memory_disk-IsLawful data_root data_root
      (codes "acme/db") (codes "/data/acme/x/../db") (pos 1) (1 ∷ 2 ∷ []) ((3 ∷ []) ∷ [])
      (λ p. none) refl refl
