-- ===== src/Tests/Handles.antt =====
-- Hash maps and a process's handles at concrete inputs.
use obos_old.Prelude.{
  ℕ, ◌≡◌, refl, true, false, [], ◌∷◌, Option, none, some, arith, ◌==◌, if◌then◌else◌, eq_cases, inl,
  inr,
}
use obos_old.Outcome.{done}
use obos_old.Hashmap.{
  Hashmap, Memory, find_chain, first_free, expand, reserve, place, hash_byte, hash_bytes, empty_map,
  default_hasher, at, emplace_at, remove,
}
use obos_old.Hashmap.Refinement.{Refines, empty_map-Refines, update}
use obos_old.Hashmap.Placing.{emplace_at-Refines}
use obos_old.Hashmap.Removing.{remove-Refines}
use obos_old.HandleTable.{
  HandleType, file_handle, type_code, Context, register_handle, invalidate_handle,
}
use obos_old.HandleTable.Laws.{
  IsHandles, Unknown, register_handle-IsHandles, invalidate_handle-twice,
}
use obos_old.HandleTable.Full.{IsFull}

abbrev Numbers : Type 0
Numbers = Hashmap ℕ

abbrev no_numbers : Memory ℕ
no_numbers = record { slots = λ i. none; chains = λ b. [] }

-- Two keys of one bucket.
abbrev two_keys : Numbers
two_keys =
    emplace_at default_hasher no_numbers 66 6 (emplace_at default_hasher no_numbers 2 5 empty_map)

two_keys_test : at default_hasher two_keys 66 ≡ done (some 6)
unfolding at emplace_at reserve find_chain place first_free expand default_hasher hash_bytes
    hash_byte
two_keys_test = refl

abbrev one_key : Numbers
one_key = emplace_at default_hasher no_numbers 2 5 empty_map

one_key-Refines : Refines default_hasher one_key (update (λ k. none) 2 (some 5))
one_key-Refines =
    emplace_at-Refines default_hasher no_numbers empty_map (λ k. none) 2 7 5
      (empty_map-Refines default_hasher) refl (omega arith) refl

-- The second key goes to the next node of the same chain.
emplace_at-Refines_example :
    Refines default_hasher two_keys (update (update (λ k. none) 2 (some 5)) 66 (some 6))
unfolding emplace_at reserve place first_free
emplace_at-Refines_example =
    emplace_at-Refines default_hasher no_numbers one_key (update (λ k. none) 2 (some 5)) 66 7 6
      one_key-Refines refl (omega arith) refl

remove-Refines_example :
    (m : Numbers) × (remove default_hasher 2 one_key ≡ done m)
    × Refines default_hasher m (update (update (λ k. none) 2 (some 5)) 2 none)
remove-Refines_example =
    remove-Refines default_hasher one_key (update (λ k. none) 2 (some 5)) 2 one_key-Refines

abbrev no_handles : Memory (ℕ × HandleType)
no_handles = record { slots = λ i. none; chains = λ b. [] }

abbrev new_context : Context
new_context = record { table = empty_map; next_handle = 0 }

new_context-IsHandles : IsHandles new_context (λ k. none)
new_context-IsHandles = record { refines = empty_map-Refines default_hasher; below = λ k l. refl }

register_handle-IsHandles_example :
    (◌≡◌ {A = Option (ℕ × HandleType)} none none)
    × ((c : Context) × (register_handle no_handles 0x1000 file_handle new_context ≡ (0, c))
        × IsHandles c (update (λ k. none) 0 (some (0x1000, file_handle))))
unfolding type_code
register_handle-IsHandles_example =
    register_handle-IsHandles no_handles new_context (λ k. none) 0x1000 3 file_handle
      new_context-IsHandles (λ e. omega arith) (λ e. omega arith) (omega arith) (omega arith) refl

abbrev one_handle : Context
one_handle = record {
  table = emplace_at default_hasher no_handles 0 (0x1000, file_handle) empty_map;
  next_handle = 1;
}

one_handle-IsHandles : IsHandles one_handle (update (λ k. none) 0 (some (0x1000, file_handle)))
one_handle-IsHandles = record {
  refines =
      emplace_at-Refines default_hasher no_handles empty_map (λ k. none) 0 3 (0x1000, file_handle)
        (empty_map-Refines default_hasher) refl (omega arith) refl;
  below = λ k l. ground arith;
}

invalidate_handle-twice_example :
    (c : Context) × (invalidate_handle true 0 one_handle
      ≡ done (
        record { result = true; invalid_parameter = false; deleted = some (file_handle, 0x1000) },
        c,
      ))
    × (invalidate_handle true 0 c
        ≡ done (record { result = false; invalid_parameter = true; deleted = none }, c))
    × Unknown 0 c
    × IsHandles c (update (update (λ k. none) 0 (some (0x1000, file_handle))) 0 none)
unfolding type_code
invalidate_handle-twice_example =
    invalidate_handle-twice one_handle (update (λ k. none) 0 (some (0x1000, file_handle))) 0 0x1000
      file_handle one_handle-IsHandles refl

-- Two nodes, both used.
abbrev full_numbers : Numbers
full_numbers = record {
  capacity = 2;
  slots = λ i. if i == 0 then some (10, 1) else if i == 1 then some (11, 2) else none;
  chains = λ b. b ∷ [];
  order = 0 ∷ 1 ∷ [];
}

full_numbers-IsFull : IsFull full_numbers
full_numbers-IsFull i l = elim (eq_cases i 0) [
  | inl e ↦ ((10, 1), ground arith)
  | inr e ↦ ((11, 2), ground arith)
]
