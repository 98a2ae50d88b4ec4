-- ===== src/Scheduler/Rounds.antt =====
-- The choice of a priority list.
use obos_old.Prelude.{
  ℕ, zero, suc, ◌≤◌, ◌<◌, ◌≡◌, refl, true, false, List, [], ◌∷◌, ◌++◌, none, some, arith, leb,
  if◌then◌else◌, Bool-cases, inl, inr, eq_cases,
}
use obos_old.Outcome.{Outcome, done, fault, ◌>>=◌}
use obos_old.Scheduler.{
  Counts, is_positive, priority_of, has_turn, highest_turn, reset_iterations, count_turn,
  find_priority_list,
}

pub highest_turn-some :
    (lists : ℕ → Counts) (n j : ℕ)
    → j < n
    → has_turn lists j ≡ true
    → (i : ℕ) × (highest_turn lists n ≡ some i)
      × (i < n)
      × (has_turn lists i ≡ true)
      × ((k : ℕ) → i < k → k < n → has_turn lists k ≡ false)
unfolding highest_turn
highest_turn-some lists zero j l h = absurd (omega arith)
highest_turn-some lists (suc n) j l h = elim (Bool-cases (has_turn lists n)) [
  | inl e ↦ (n, ground arith, omega arith, e, λ k a b. absurd (omega arith))
  | inr e ↦ elim (eq_cases j n) [
    | inl same ↦ absurd (ground arith)
    | inr other ↦
        let (i, f, u, g, above) = highest_turn-some lists n j (omega arith) h in
        (
          i,
          ground arith,
          omega arith,
          g,
          λ k a b. elim (eq_cases k n) [ inl q ↦ ground arith | inr q ↦ above k a (omega arith) ],
        )
  ]
]

pub highest_turn-none :
    (lists : ℕ → Counts) (n : ℕ)
    → ((k : ℕ) → k < n → has_turn lists k ≡ false)
    → highest_turn lists n ≡ none
unfolding highest_turn
highest_turn-none lists zero off = refl
highest_turn-none lists (suc n) off =
    let rest = highest_turn-none lists n (λ k l. off k (omega arith)) in
    ground (arith, off n (omega arith))

-- The counts that findThreadPriorityList chooses by.
abbrev pub fresh_counts : (ℕ → Counts) → ℕ → Counts
fresh_counts lists = if leb 1 (lists 0).iterations then reset_iterations lists else lists

-- With a thread of the lowest priority, findThreadPriorityList returns after at most one call of
-- itself: it chooses a list with threads that has turns left, none of the lists above has, and one
-- turn of the list is counted; all turns start over when the lowest list has had its turn.
pub find_priority_list-Chosen :
    (lists : ℕ → Counts)
    → 0 < (lists 0).size
    → (i : ℕ) × (find_priority_list 2 lists ≡ done (i, count_turn (fresh_counts lists) i))
      × (i < 4)
      × (has_turn (fresh_counts lists) i ≡ true)
      × ((k : ℕ) → i < k → k < 4 → has_turn (fresh_counts lists) k ≡ false)
unfolding find_priority_list reset_iterations has_turn priority_of is_positive
find_priority_list-Chosen lists l =
    let (i, e, u, h, above) =
      highest_turn-some (fresh_counts lists) 4 0 (omega arith) (ground arith) in
    (i, ground arith, u, h, above)

-- Without a thread of the lowest priority, findThreadPriorityList writes in front of the array of
-- lists as soon as the turns of the lists that have threads are used up; they are not started over.
pub find_priority_list-fault :
    (fuel : ℕ) (lists : ℕ → Counts)
    → (lists 0).iterations ≡ 0
    → (lists 0).size ≡ 0
    → ((k : ℕ) → 0 < k → k < 4 → 0 < (lists k).size → priority_of k ≤ (lists k).iterations)
    → find_priority_list (suc fuel) lists ≡ fault
unfolding find_priority_list has_turn is_positive
find_priority_list-fault fuel lists i s used =
    let off : (k : ℕ) → k < 4 → has_turn lists k ≡ false = λ k l. elim (eq_cases k 0) [
      | inl e ↦ ground arith
      | inr d ↦ ground (arith, used k (omega arith) l)
    ] in
    ground (arith, highest_turn-none lists 4 off)

-- The lists that `n` calls in a row choose.
unfoldable pub choices : ℕ → (ℕ → Counts) → Outcome (List ℕ)
choices zero lists = done []
choices (suc n) lists = find_priority_list 2 lists >>= λ r. choices n r.1 >>= λ is. done (r.0 ∷ is)

abbrev one_round : List ℕ
one_round = 3 ∷ 3 ∷ 3 ∷ 3 ∷ 3 ∷ 3 ∷ 3 ∷ 3 ∷ 2 ∷ 2 ∷ 2 ∷ 2 ∷ 1 ∷ 1 ∷ 0 ∷ []

-- When all four lists have threads and no turn has been counted, the calls choose the highest list
-- eight times, the next four times, then two times and once, and the same again.
pub choices-round :
    (more : ℕ → ℕ)
    → choices 30 (λ i. record { size = suc (more i); iterations = 0 })
      ≡ done (one_round ++ one_round)
unfolding choices find_priority_list highest_turn is_positive has_turn priority_of count_turn
    reset_iterations
choices-round more = refl
