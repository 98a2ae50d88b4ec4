-- ===== src/Devices.antt =====
-- The registration of drives and input devices: src/oboskrnl/driverInterface/register.cpp. Entries are
-- addresses, 0 is nullptr, and a new entry's address and links are what the slab allocator returns.
-- The handles that refer to an entry and its partitions are lists; that they are closed and deleted
-- is written to a log.
pub mod Ids
use obos_old.Prelude.{
  ℕ, zero, suc, ◌-◌, ◌%◌, Bool, true, false, List, [], ◌∷◌, ◌++◌, ◌==◌, if◌then◌else◌, u32, sub64,
}
use obos_old.Outcome.{Outcome, done, ◌>>=◌}
use obos_old.Links.{Header, ListState, attach, push_back, unlink}
use obos_old.Vfs.Drives.{find_entry}

pub data ServiceType : Type 0 where
  filesystem : ServiceType
  initrd_filesystem : ServiceType
  storage_device : ServiceType
  virtual_storage_device : ServiceType
  user_input_device : ServiceType
  virtual_user_input_device : ServiceType
  communication : ServiceType
  virtual_communication : ServiceType
  partition_manager : ServiceType
  kernel_extension : ServiceType

pub data DeviceType : Type 0 where
  drive : DeviceType
  user_input : DeviceType

pub data DeviceEvent : Type 0 where
  close_handle : ℕ → DeviceEvent
  delete_partition : ℕ → DeviceEvent
  delete_entry : ℕ → DeviceEvent

-- The identity of the current thread's driver, 0 when it has none, with its service.
pub record Caller : Type 0 where
  pub identity : ℕ
  pub service : ServiceType

-- g_drives and g_inputDevices with their entries.
pub record Registry : Type 0 where
  pub drives : ListState
  pub inputs : ListState
  pub id : ℕ → ℕ
  pub driver : ℕ → ℕ
  pub handles : ℕ → List ℕ
  pub partitions : ℕ → List ℕ
  pub buffer : ℕ → List ℕ
  pub log : List DeviceEvent

unfoldable pub is_storage : ServiceType → Bool
is_storage storage_device = true
is_storage virtual_storage_device = true
is_storage filesystem = false
is_storage initrd_filesystem = false
is_storage user_input_device = false
is_storage virtual_user_input_device = false
is_storage communication = false
is_storage virtual_communication = false
is_storage partition_manager = false
is_storage kernel_extension = false

unfoldable pub is_input : ServiceType → Bool
is_input user_input_device = true
is_input virtual_user_input_device = true
is_input filesystem = false
is_input initrd_filesystem = false
is_input storage_device = false
is_input virtual_storage_device = false
is_input communication = false
is_input virtual_communication = false
is_input partition_manager = false
is_input kernel_extension = false

-- A new entry has no handles, partitions and keys.
unfoldable pub with_entry : ℕ → ℕ → ℕ → Registry → Registry
with_entry entry id driver r = record r {
  id = λ e. if e == entry then id else r.id e;
  driver = λ e. if e == entry then driver else r.driver e;
  handles = λ e. if e == entry then [] else r.handles e;
  partitions = λ e. if e == entry then [] else r.partitions e;
  buffer = λ e. if e == entry then [] else r.buffer e;
}

-- RegisterDrive, with the address of the new entry.
unfoldable pub register_drive : Caller → ℕ → Registry → ℕ × Registry
register_drive c entry r =
    let id = r.drives.header.size % u32 in
    if c.identity == 0
    then (u32 - 1, r)
    else if is_storage c.service
    then (id, with_entry entry id c.identity (record r { drives = attach entry r.drives }))
    else (u32 - 1, r)

-- RegisterUserInputDevice: the id is the number of drives.
unfoldable pub register_user_input_device : Caller → ℕ → Registry → ℕ × Registry
register_user_input_device c entry r =
    let id = r.drives.header.size % u32 in
    if c.identity == 0
    then (u32 - 1, r)
    else if is_input c.service
    then (id, with_entry entry id c.identity (record r { inputs = push_back entry r.inputs }))
    else (u32 - 1, r)

unfoldable pub close_all : List ℕ → List DeviceEvent
close_all [] = []
close_all (h ∷ hs) = close_handle h ∷ close_all hs

unfoldable pub delete_all : List ℕ → List DeviceEvent
delete_all [] = []
delete_all (p ∷ ps) = delete_partition p ∷ delete_all ps

-- UnregisterDrive, with fuel for the list.
unfoldable pub unregister_drive : ℕ → ℕ → Registry → Outcome Registry
unregister_drive fuel id r =
    find_entry (λ e. r.id e == id) (λ e. (r.drives.links e).next) fuel r.drives.header.head
    >>= λ entry.
        if entry == 0
        then done r
        else done (record r {
          drives = unlink entry r.drives;
          log =
              r.log
              ++ close_all (r.handles entry)
              ++ delete_all (r.partitions entry)
              ++ delete_entry entry ∷ [];
        })

-- The entry leaves its list, and the number of drives goes down.
unfoldable pub drop_input : ℕ → Registry → Registry
drop_input entry r =
    let left = unlink entry r.inputs in
    record r {
      inputs = record left { header = record (left.header) { size = r.inputs.header.size } };
      drives = record (r.drives) {
        header = record (r.drives.header) { size = sub64 r.drives.header.size 1 };
      };
      log = r.log ++ close_all (r.handles entry) ++ delete_entry entry ∷ [];
    }

-- UnregisterInputDevice, with fuel for the list.
unfoldable pub unregister_input_device : ℕ → ℕ → Registry → Outcome Registry
unregister_input_device fuel id r =
    find_entry (λ e. r.id e == id) (λ e. (r.inputs.links e).next) fuel r.inputs.header.head
    >>= λ entry. if entry == 0 then done r else done (drop_input entry r)

unfoldable pub register_device : DeviceType → Caller → ℕ → Registry → ℕ × Registry
register_device drive c entry r = register_drive c entry r
register_device user_input c entry r = register_user_input_device c entry r

unfoldable pub unregister_device : DeviceType → ℕ → ℕ → Registry → Outcome Registry
unregister_device drive fuel id r = unregister_drive fuel id r
unregister_device user_input fuel id r = unregister_input_device fuel id r

-- WriteByteToInputDeviceBuffer
unfoldable pub write_byte : ℕ → ℕ → ℕ → Registry → Outcome (Bool × Registry)
write_byte fuel id key r =
    find_entry (λ e. r.id e == id) (λ e. (r.inputs.links e).next) fuel r.inputs.header.head
    >>= λ entry.
        if entry == 0
        then done (false, r)
        else done (
          true,
          record r { buffer = λ e. if e == entry then r.buffer e ++ key ∷ [] else r.buffer e },
        )
