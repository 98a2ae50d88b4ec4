-- ===== src/HandleTable/Laws.antt =====
-- A process's handles as a finite map from handle values to objects with their types.
use obos_old.Prelude.{
  ℕ, suc, sym, refl, fun_ext, ◌≤◌, ◌<◌, ◌≡◌, ◌≢◌, true, false, Option, none, some, arith, ◌==◌,
  if◌then◌else◌, u64, inl, inr, Option-cases,
}
use obos_old.Outcome.{done}
use obos_old.Hashmap.{Memory, default_hasher, emplace_at, contains}
use obos_old.Hashmap.Refinement.{Refines, at-Refines, update}
use obos_old.Hashmap.Placing.{emplace_at-Refines}
use obos_old.Hashmap.Removing.{remove-Refines}
use obos_old.HandleTable.{
  HandleType, invalid, file_handle, drive_handle, thread_handle, vallocator_handle,
  directory_iterator_handle, type_code, Context, register_handle, entry, verify_handle,
  get_handle_object, get_handle_type, release_handle, delete_object, invalidate_handle,
}

-- The context holds the handles of `f`, all of them below the next one.
pub record IsHandles (c : Context) (f : ℕ → Option (ℕ × HandleType)) : Type 0 where
  pub refines : Refines default_hasher c.table f
  pub below : (k : ℕ) → c.next_handle ≤ k → f k ≡ none

-- What the three queries say of a handle that is not in the table.
abbrev pub Unknown : ℕ → Context → Type 0
Unknown handle c =
    ((type : HandleType) → verify_handle handle type c ≡ done false)
    × (get_handle_object handle c ≡ done 0)
    × (get_handle_type handle c ≡ done invalid)

-- What they say of one that stands for an object with its type.
abbrev pub Known : ℕ → ℕ × HandleType → Context → Type 0
Known handle e c =
    (verify_handle handle invalid c ≡ done true)
    × ((type : HandleType)
        → type_code type ≢ type_code invalid
        → verify_handle handle type c ≡ done (type_code e.1 == type_code type))
    × (get_handle_object handle c ≡ done e.0)
    × (get_handle_type handle c ≡ done e.1)

pub none-Unknown :
    (c : Context) (f : ℕ → Option (ℕ × HandleType)) (h : ℕ)
    → Refines default_hasher c.table f
    → f h ≡ none
    → Unknown h c
unfolding verify_handle get_handle_object get_handle_type contains
none-Unknown c f h r e =
    let look = at-Refines default_hasher c.table f h r in
    ((λ type. ground (arith, look)), ground (arith, look), ground (arith, look))

pub some-Known :
    (c : Context) (f : ℕ → Option (ℕ × HandleType)) (h : ℕ) (e : ℕ × HandleType)
    → Refines default_hasher c.table f
    → f h ≡ some e
    → Known h e c
unfolding verify_handle get_handle_object get_handle_type contains entry
some-Known c f h e r q =
    let look = at-Refines default_hasher c.table f h r in
    (
      ground (arith, look),
      (λ type n. ground (arith, look)),
      ground (arith, look),
      ground (arith, look),
    )

-- With an index of the table to spare, registering an object with a type gives the next handle value,
-- and then the context holds the old handles and the new one, which is none of them.
pub register_handle-IsHandles :
    (junk : Memory (ℕ × HandleType)) (c : Context) (f : ℕ → Option (ℕ × HandleType)) (object j : ℕ)
    (type : HandleType)
    → IsHandles c f
    → object ≢ 0
    → type_code type ≢ type_code invalid
    → suc c.next_handle < u64
    → j < c.table.capacity
    → c.table.slots j ≡ none
    → (f c.next_handle ≡ none)
      × ((c' : Context) × (register_handle junk object type c ≡ (c.next_handle, c'))
          × IsHandles c' (update f c.next_handle (some (object, type))))
unfolding register_handle type_code
register_handle-IsHandles junk c f object j type h o t n l e =
    let new = h.below c.next_handle (omega arith) in
    let kept =
      emplace_at-Refines default_hasher junk c.table f c.next_handle j (object, type) h.refines new
        l e in
    (
      new,
      (
        record {
          table = emplace_at default_hasher junk c.next_handle (object, type) c.table;
          next_handle = suc c.next_handle;
        },
        ground arith,
        record { refines = kept; below = λ k q. ground (arith, h.below k (omega arith)) },
      ),
    )

-- Releasing a handle gives its object, or a null pointer for one that the context does not hold, and
-- then the context holds the others only.
pub release_handle-IsHandles :
    (c : Context) (f : ℕ → Option (ℕ × HandleType)) (k : ℕ)
    → IsHandles c f
    → (c' : Context) × (release_handle k c ≡ done (elim (f k) [ none ↦ 0 | some e ↦ e.0 ], c'))
      × IsHandles c' (update f k none)
unfolding release_handle
release_handle-IsHandles c f k h = elim (Option-cases (f k)) [
  | inl e ↦
      let (unknown, gone, untyped) = none-Unknown c f k h.refines e in
      let same : (j : ℕ) → f j ≡ update f k none j = λ j. ground arith in
      (c, ground (arith, unknown invalid), rw (sym (fun_ext same)) h)
  | inr (e, q) ↦
      let (t, removed, r) = remove-Refines default_hasher c.table f k h.refines in
      let (here, typed, object, type) = some-Known c f k e h.refines q in
      (
        record c { table = t },
        ground (arith, here, object, removed),
        record { refines = r; below = λ j l. ground (arith, h.below j l) },
      )
]

deleted-as :
    (type : HandleType) (object : ℕ)
    → delete_object type object
      ≡ (if type_code type == type_code invalid then none else some (type, object))
unfolding delete_object type_code
deleted-as invalid object = refl
deleted-as file_handle object = refl
deleted-as drive_handle object = refl
deleted-as thread_handle object = refl
deleted-as vallocator_handle object = refl
deleted-as directory_iterator_handle object = refl

-- Invalidating a handle of a context deletes its object, once and as an object of the type it was
-- registered with (nothing for the type of an invalid handle); the handle is unknown to every query
-- from then on, the other handles stay, and invalidating it again reports an invalid parameter and
-- deletes nothing.
pub invalidate_handle-twice :
    (c : Context) (f : ℕ → Option (ℕ × HandleType)) (k object : ℕ) (type : HandleType)
    → IsHandles c f
    → f k ≡ some (object, type)
    → (c' : Context) × (invalidate_handle true k c
        ≡ done (
          record {
            result = true;
            invalid_parameter = false;
            deleted = if type_code type == type_code invalid then none else some (type, object);
          },
          c',
        ))
      × (invalidate_handle true k c'
          ≡ done (record { result = false; invalid_parameter = true; deleted = none }, c'))
      × Unknown k c'
      × IsHandles c' (update f k none)
unfolding invalidate_handle
invalidate_handle-twice c f k object type h e =
    let (c', released, h') = release_handle-IsHandles c f k h in
    let (here, typed, o, t) = some-Known c f k (object, type) h.refines e in
    let gone = none-Unknown c' (update f k none) k h'.refines (ground arith) in
    (
      c',
      ground (arith, here, o, t, released, deleted-as type object),
      ground (arith, gone.0 invalid),
      gone,
      h',
    )
