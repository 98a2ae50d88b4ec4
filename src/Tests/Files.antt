-- ===== src/Tests/Files.antt =====
-- A mount point 0 with the directory `usr`, in it a file of five bytes, and a keyboard.
use obos_old.Prelude.{ℕ, ◌≡◌, refl, Bool, true, false, [], ◌∷◌, some, arith, ◌==◌, if◌then◌else◌}
use obos_old.Outcome.{done}
use obos_old.CString.{CString, str_contains, get_mount_id, path_strcmp, real_path}
use obos_old.Links.{empty_header}
use obos_old.Links.Chain.{IsChain}
use obos_old.Vfs.{
  Vfs, DirectoryEntry, directory, file, InputDevice, success, search_for_node, search_siblings,
  search_below, find_mount, follow_links,
}
use obos_old.Vfs.Forest.{Forest, nil, node, Found, search_for_node-Found}
use obos_old.Vfs.FileHandle.{
  FileHandle, OpenOptions, Call, closed_handle, flags_input, open_handle, open_file, close, seek_to,
  attach_file, settle,
}
use obos_old.Vfs.FileHandle.Close.{handle_refs, Opened, open_handle-Opened, close-open_handle}
use obos_old.Vfs.FileHandle.Read.{ReadFile}
use obos_old.Vfs.FileHandle.Reading.{IsFile, IsDevice}
use obos_old.Tests.CString.{usr}

abbrev note : CString
note = b'n' ∷ b'o' ∷ b't' ∷ b'e' ∷ []

-- "usr/note"
abbrev usr_note : CString
usr_note = b'u' ∷ b's' ∷ b'r' ∷ b'/' ∷ note

-- "0:/usr/note"
abbrev note_path : CString
note_path = b'0' ∷ b':' ∷ b'/' ∷ usr_note

abbrev usr_entry : DirectoryEntry
usr_entry = record {
  next = 0;
  parent = 0;
  children = 11;
  dirent_type = directory;
  filesize = 0;
  path = usr;
  linked_node = 0;
  mount_point = 1;
  refs = empty_header;
}

abbrev note_entry : DirectoryEntry
note_entry = record {
  next = 0;
  parent = 10;
  children = 0;
  dirent_type = file;
  filesize = 5;
  path = usr_note;
  linked_node = 0;
  mount_point = 1;
  refs = empty_header;
}

abbrev keyboard : InputDevice
keyboard = record { id = 0; keys = 97 ∷ 98 ∷ 99 ∷ []; next = 0; refs = empty_header }

abbrev disk : Vfs
disk = record {
  dirent = λ p. if p == 10 then usr_entry else note_entry;
  device = λ p. keyboard;
  mount = λ p. record { id = 0; children = 10; drive_id = 3; partition_id = 1 };
  devices_head = 20;
  mount_points = 1 ∷ [];
  links = λ p. record { next = 0; prev = 0 };
  holder = λ p. 0;
  last_error = success;
}

abbrev reading : OpenOptions
reading = record { read_only = true; append = true }

-- What Open makes of a closed handle and `note_path`.
abbrev opened_note : Call Bool
opened_note = attach_file 77 50 closed_handle disk reading 11 11

opens :
    open_handle 9 77 50 closed_handle disk (some note_path) reading
    ≡ done (true, opened_note.1, opened_note.2)
unfolding open_handle open_file settle attach_file follow_links search_for_node search_below
    search_siblings path_strcmp real_path str_contains get_mount_id find_mount
opens = refl

no_handles : IsChain (handle_refs opened_note.1 disk) []
unfolding attach_file seek_to
no_handles = ground arith

open_handle-Opened_example : Opened 77 50 disk opened_note.1 opened_note.2
open_handle-Opened_example =
    open_handle-Opened 9 77 50 disk (some note_path) reading opened_note.1 opened_note.2 opens

close-open_handle_example :
    IsChain (handle_refs opened_note.1 opened_note.2) (50 ∷ [])
    × ((close opened_note.1 opened_note.2).0 ≡ true)
    × ((close opened_note.1 opened_note.2).1 ≡ closed_handle)
    × IsChain (handle_refs opened_note.1 (close opened_note.1 opened_note.2).2) []
close-open_handle_example =
    close-open_handle 9 77 50 disk (some note_path) reading opened_note.1 opened_note.2 opens []
      (omega arith) refl (omega arith) no_handles

abbrev forest : Forest
forest = node 10 (node 11 nil nil) nil

abbrev is_note : ℕ → Bool
is_note p = p == 11

search_for_node-Found_example :
    (r : ℕ) × (search_for_node
        (λ p. done (is_note p))
        (λ p. (disk.dirent p).next)
        (λ p. (disk.dirent p).children)
        6
        10
      ≡ done r)
    × Found is_note forest r
search_for_node-Found_example =
    search_for_node-Found (λ p. done (is_note p)) (λ p. (disk.dirent p).next)
      (λ p. (disk.dirent p).children) is_note forest 10 6 (ground arith) (refl, (refl, tt, tt), tt)
      (omega arith)

-- A handle on the file, at a position, and one on the keyboard.
abbrev note_at : ℕ → FileHandle
note_at pos = record {
  path_node = 11;
  node = 11;
  list_node = 50;
  pos = pos;
  flags = record { is_input_device = false; allow_write = false; closed = false };
}

abbrev keyboard_at : ℕ → FileHandle
keyboard_at pos = record {
  path_node = 20;
  node = 20;
  list_node = 50;
  pos = pos;
  flags = flags_input;
}

note_at-IsFile : (pos : ℕ) → IsFile (note_at pos)
note_at-IsFile pos = record { opened = refl; no_device = refl; refers = omega arith }

keyboard_at-IsDevice : (pos : ℕ) → IsDevice (keyboard_at pos)
keyboard_at-IsDevice pos = record { opened = refl; device = refl; refers = omega arith }

-- A driver that answers with the offset and the count.
abbrev driver : ReadFile
driver drive partition path offset count = some (offset ∷ count ∷ [])
