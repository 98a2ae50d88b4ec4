-- ===== src/HandleTable.antt =====
-- The handle table of a process: src/oboskrnl/arch/x86_64/syscall/handle.cpp over utils::Hashmap.
-- The context is that of the process that is passed on, or of the current thread's owner; its table
-- lock is taken and given back inside one call and is not part of the state.
pub mod Laws
pub mod Full
use obos_old.Prelude.{
  ℕ, ◌+◌, ◌-◌, Bool, true, false, not, Option, none, some, ◌==◌, ◌||◌, if◌then◌else◌, u64, add64,
}
use obos_old.Outcome.{Outcome, done, fault, ◌>>=◌}
use obos_old.Hashmap.{Hashmap, Memory, default_hasher, at, emplace_at, remove, contains}

pub data HandleType : Type 0 where
  invalid : HandleType
  file_handle : HandleType
  drive_handle : HandleType
  thread_handle : HandleType
  vallocator_handle : HandleType
  directory_iterator_handle : HandleType

-- The enumerators' values.
unfoldable pub type_code : HandleType → ℕ
type_code invalid = 0xffff_ffff
type_code file_handle = 0
type_code drive_handle = 1
type_code thread_handle = 2
type_code vallocator_handle = 3
type_code directory_iterator_handle = 4

pub record Context : Type 0 where
  pub table : Hashmap (ℕ × HandleType)
  pub next_handle : ℕ

-- ProcessRegisterHandle
unfoldable pub register_handle : Memory (ℕ × HandleType) → ℕ → HandleType → Context → ℕ × Context
unfolding type_code
register_handle junk object type c =
    if (type_code type == type_code invalid) || (object == 0) then (u64 - 1, c) else (
      c.next_handle,
      record {
        table = emplace_at default_hasher junk c.next_handle (object, type) c.table;
        next_handle = add64 c.next_handle 1;
      },
    )

-- The pair behind a handle that has been found.
unfoldable pub entry : Context → ℕ → Outcome (ℕ × HandleType)
entry c handle =
    at default_hasher c.table handle >>= λ found. elim found [ none ↦ fault | some e ↦ done e ]

-- ProcessVerifyHandle
unfoldable pub verify_handle : ℕ → HandleType → Context → Outcome Bool
unfolding type_code
verify_handle handle type c =
    if type_code type == type_code invalid
    then contains default_hasher c.table handle
    else contains default_hasher c.table handle >>= λ here.
        if not here
        then done false
        else entry c handle >>= λ e. done (type_code e.1 == type_code type)

-- ProcessGetHandleObject
unfoldable pub get_handle_object : ℕ → Context → Outcome ℕ
get_handle_object handle c = verify_handle handle invalid c >>= λ here.
    if not here then done 0 else entry c handle >>= λ e. done e.0

-- ProcessGetHandleType
unfoldable pub get_handle_type : ℕ → Context → Outcome HandleType
get_handle_type handle c = verify_handle handle invalid c >>= λ here.
    if not here then done invalid else entry c handle >>= λ e. done e.1

-- ProcessReleaseHandle
unfoldable pub release_handle : ℕ → Context → Outcome (ℕ × Context)
release_handle handle c = verify_handle handle invalid c >>= λ here.
    if not here
    then done (0, c)
    else get_handle_object handle c >>= λ object.
        remove default_hasher handle c.table >>= λ table. done (object, record c { table = table })

-- What SyscallInvalidateHandle reports: the result, whether it set OBOS_ERROR_INVALID_PARAMETER, and
-- the object that it deleted with the type it was deleted as.
pub record Invalidation : Type 0 where
  pub result : Bool
  pub invalid_parameter : Bool
  pub deleted : Option (HandleType × ℕ)

-- The switch of SyscallInvalidateHandle.
unfoldable pub delete_object : HandleType → ℕ → Option (HandleType × ℕ)
delete_object invalid object = none
delete_object file_handle object = some (file_handle, object)
delete_object drive_handle object = some (drive_handle, object)
delete_object thread_handle object = some (thread_handle, object)
delete_object vallocator_handle object = some (vallocator_handle, object)
delete_object directory_iterator_handle object = some (directory_iterator_handle, object)

-- SyscallInvalidateHandle of a handle in memory that the program can or cannot read.
unfoldable pub invalidate_handle : Bool → ℕ → Context → Outcome (Invalidation × Context)
invalidate_handle false handle c =
    done (record { result = false; invalid_parameter = true; deleted = none }, c)
invalidate_handle true handle c = verify_handle handle invalid c >>= λ here.
    if not here
    then done (record { result = false; invalid_parameter = true; deleted = none }, c)
    else get_handle_type handle c >>= λ type. get_handle_object handle c >>= λ object.
        release_handle handle c >>= λ r. done (
          record { result = true; invalid_parameter = false; deleted = delete_object type object },
          r.1,
        )
