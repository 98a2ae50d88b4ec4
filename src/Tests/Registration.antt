-- ===== src/Tests/Registration.antt =====
-- The registration of devices at concrete inputs.
use obos_old.Prelude.{◌≡◌, refl, [], ◌∷◌, arith, ◌==◌, if◌then◌else◌}
use obos_old.Outcome.{done}
use obos_old.Links.{ListState}
use obos_old.Links.Chain.{IsChain}
use obos_old.Vfs.Drives.{find_entry}
use obos_old.Devices.{Caller, storage_device, is_storage, Registry, register_drive}
use obos_old.Devices.Ids.{IsNumbered, register_drive-IsNumbered}

-- Entries 10 and 20 in a list.
abbrev two_in_list : ListState
two_in_list = record {
  links = λ a.
      if a == 10
      then record { next = 20; prev = 0 }
      else if a == 20
      then record { next = 0; prev = 10 }
      else record { next = 0; prev = 0 };
  header = record { head = 10; tail = 20; size = 2 };
}

two_in_list-IsChain : IsChain two_in_list (10 ∷ 20 ∷ [])
two_in_list-IsChain = record {
  nodes =
      (refl, (λ e. omega arith), refl, refl, (refl, (λ e. omega arith), refl, refl, (refl, refl)));
  count = refl;
  fits = omega arith;
}

abbrev registry : Registry
registry = record {
  drives = two_in_list;
  inputs = two_in_list;
  id = λ e. if e == 20 then 1 else 0;
  driver = λ e. 7;
  handles = λ e. [];
  partitions = λ e. [];
  buffer = λ e. [];
  log = [];
}

abbrev disk_driver : Caller
disk_driver = record { identity = 7; service = storage_device }

registry-IsNumbered : IsNumbered registry (10 ∷ 20 ∷ [])
registry-IsNumbered = record { chain = two_in_list-IsChain; below = λ x h. ground arith }

register_drive-IsNumbered_example :
    (r : Registry) × (register_drive disk_driver 30 registry ≡ (2, r))
    × IsNumbered r (10 ∷ 20 ∷ 30 ∷ [])
    × (find_entry (λ e. r.id e == 2) (λ e. (r.drives.links e).next) 4 r.drives.header.head
        ≡ done 30)
unfolding is_storage
register_drive-IsNumbered_example =
    register_drive-IsNumbered disk_driver registry (10 ∷ 20 ∷ []) 30 registry-IsNumbered
      (λ e. omega arith) refl (λ e. omega arith) refl refl (omega arith)
