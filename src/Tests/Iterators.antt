-- ===== src/Tests/Iterators.antt =====
-- The iterators at concrete inputs.
use obos_old.Prelude.{ℕ, ◌≡◌, refl, [], ◌∷◌, arith, ◌==◌, if◌then◌else◌}
use obos_old.Outcome.{done}
use obos_old.CString.{CString}
use obos_old.Links.{empty_header}
use obos_old.Vfs.{Vfs, DirectoryEntry, file, success}
use obos_old.Vfs.Iterators.{DirectoryIterator}
use obos_old.Vfs.Iterators.Walk.{walk, walk-texts}

-- Two files, 10 and 20, in the directory 5 of mount point 1.
abbrev entry_at : ℕ → DirectoryEntry
entry_at a = record {
  next = if a == 10 then 20 else 0;
  parent = 5;
  children = 0;
  dirent_type = file;
  filesize = 0;
  path = (if a == 10 then b'a' else b'b') ∷ [];
  linked_node = 0;
  mount_point = 1;
  refs = empty_header;
}

abbrev files : Vfs
files = record {
  dirent = entry_at;
  device = λ a. record { id = 0; keys = []; next = 0; refs = empty_header };
  mount = λ a. record { id = 3; children = 10; drive_id = 0; partition_id = 0 };
  devices_head = 0;
  mount_points = [];
  links = λ a. record { next = 0; prev = 0 };
  holder = λ a. 0;
  last_error = success;
}

abbrev numbered : ℕ → CString → CString
numbered id path = id ∷ path

abbrev iterator_at : ℕ → DirectoryIterator
iterator_at node = record { directory_node = 5; current_node = node }

walk-texts_example :
    walk numbered files 3 (iterator_at 10)
    ≡ done ((3 ∷ b'a' ∷ []) ∷ (3 ∷ b'b' ∷ []) ∷ [], iterator_at 0)
walk-texts_example =
    walk-texts numbered files (10 ∷ 20 ∷ []) (iterator_at 10)
      (refl, (λ e. omega arith), (refl, (λ e. omega arith), refl))
