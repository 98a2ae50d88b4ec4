-- ===== src/Scheduler/Runnable.antt =====
-- The search for a thread that can run.
use obos_old.Prelude.{
  ℕ, ◌≤◌, ◌≡◌, refl, ◌⊎◌, true, false, List, [], ◌∷◌, Option, none, some, arith, if◌then◌else◌, has,
  Once, Bool-cases, Option-cases, inl, inr, eq_cases,
}
use obos_old.Scheduler.{
  Runner, thread_can_run, only_can_run, mark, restart, at_runner, earlier, runnable_loop,
  find_runnable_thread,
}

-- What a pass over its list makes of a runner.
abbrev pub passed : Runner → Runner
passed r = restart r.status.clear_time_slice_index (mark r)

-- The thread found so far can be the one found in the end, or one of the list that can run is; none
-- that can run was preempted before it.
abbrev pub Found : ℕ → (ℕ → Runner) → Option ℕ → List ℕ → Option ℕ → Type 0
Found cpu rs best ts none =
    (best ≡ none) × ((t : ℕ) → has t ts ≡ true → thread_can_run cpu (rs t) ≡ false)
Found cpu rs best ts (some b) =
    ((best ≡ some b) ⊎ ((has b ts ≡ true) × (thread_can_run cpu (rs b) ≡ true)))
    × ((t : ℕ)
        → has t ts ≡ true
        → thread_can_run cpu (rs t) ≡ true
        → (rs b).last_time_preempted ≤ (rs t).last_time_preempted)
    × ((c : ℕ) → best ≡ some c → (rs b).last_time_preempted ≤ (rs c).last_time_preempted)

thread_can_run-mark : (cpu : ℕ) (r : Runner) → thread_can_run cpu (mark r) ≡ thread_can_run cpu r
unfolding thread_can_run only_can_run mark
thread_can_run-mark cpu r = ground arith

passed-last : (r : Runner) → (passed r).last_time_preempted ≡ r.last_time_preempted
unfolding mark restart
passed-last r = ground arith

module _ (cpu t : ℕ) (rs : ℕ → Runner) (best : Option ℕ) (ts : List ℕ)
    (apart : has t ts ≡ false) where
  abbrev rest : ℕ → Runner
  rest = at_runner rs t (passed (rs t))

  abbrev better : Option ℕ
  better = if thread_can_run cpu (mark (rs t)) then some (earlier rs best t) else best

  rest-last : (u : ℕ) → (rest u).last_time_preempted ≡ (rs u).last_time_preempted
  unfolding at_runner
  rest-last u = ground (arith, passed-last (rs t))

  rest-same : (u : ℕ) → has u ts ≡ true → rest u ≡ rs u
  unfolding at_runner
  rest-same u h = ground arith

  earlier-least :
      ((rs (earlier rs best t)).last_time_preempted ≤ (rs t).last_time_preempted)
      × ((c : ℕ)
          → best ≡ some c
          → (rs (earlier rs best t)).last_time_preempted ≤ (rs c).last_time_preempted)
  unfolding earlier
  earlier-least = elim (Option-cases best) [
    | inl e ↦ (ground arith, λ c q. ground arith)
    | inr (b, e) ↦ (ground arith, λ c q. ground arith)
  ]

  Found-step : (r : Option ℕ) → Found cpu rest better ts r → Found cpu rs best (t ∷ ts) r
  unfolding earlier
  Found-step none (e, off) =
      let can = thread_can_run-mark cpu (rs t) in
      (
        ground (arith, can),
        λ u h. elim (eq_cases u t) [
          | inl same ↦ ground (arith, can)
          | inr other ↦ ground (arith, rest-same u, off u)
        ],
      )
  Found-step (some b) (who, least, before) =
      let can = thread_can_run-mark cpu (rs t) in
      let lb = rest-last b in
      (
        elim who [
          | inl e ↦ elim (Bool-cases (thread_can_run cpu (rs t))) [
            | inl goes ↦ elim (Option-cases best) [
              | inl q ↦ inr (ground arith, ground arith)
              | inr (c, q) ↦ elim (eq_cases b t) [
                | inl same ↦ inr (ground arith, ground arith)
                | inr other ↦ inl (ground arith)
              ]
            ]
            | inr stays ↦ inl (ground arith)
          ]
          | inr (h, c) ↦ inr (ground arith, ground (arith, rest-same b h))
        ],
        (λ u h c. elim (eq_cases u t) [
          | inl same ↦ ground (
            arith,
            can,
            before (earlier rs best t),
            rest-last (earlier rs best t),
            earlier-least.0,
          )
          | inr other ↦ ground (arith, rest-same u, least u, rest-last u)
        ]),
        λ c e. elim (Bool-cases (thread_can_run cpu (rs t))) [
          | inl goes ↦ ground (
            arith,
            can,
            before (earlier rs best t),
            rest-last (earlier rs best t),
            earlier-least.1 c e,
          )
          | inr stays ↦ ground (arith, can, before c, rest-last c)
        ],
      )

runnable_loop-Found :
    (cpu : ℕ) (rs : ℕ → Runner) (best : Option ℕ) (ts : List ℕ)
    → Once ts
    → Found cpu rs best ts (runnable_loop cpu rs best ts).1
unfolding runnable_loop
runnable_loop-Found cpu rs none [] o = (refl, λ t h. ground arith)
runnable_loop-Found cpu rs (some b) [] o = (inl refl, (λ t h c. ground arith), λ c e. ground arith)
runnable_loop-Found cpu rs best (t ∷ ts) o =
    Found-step cpu t rs best ts o.0 (runnable_loop cpu rs best (t ∷ ts)).1
      (runnable_loop-Found cpu (rest cpu t rs best ts o.0) (better cpu t rs best ts o.0) ts o.1)

runnable_loop-passed :
    (cpu : ℕ) (rs : ℕ → Runner) (best : Option ℕ) (ts : List ℕ) (u : ℕ)
    → Once ts
    → (runnable_loop cpu rs best ts).0 u ≡ (if has u ts then passed (rs u) else rs u)
unfolding runnable_loop at_runner
runnable_loop-passed cpu rs best [] u o = refl
runnable_loop-passed cpu rs best (t ∷ ts) u o =
    let ih =
      runnable_loop-passed cpu (rest cpu t rs best ts o.0) (better cpu t rs best ts o.0) ts u o.1 in
    elim (eq_cases u t) [ inl same ↦ ground (arith, ih, o.0) | inr other ↦ ground (arith, ih) ]

-- findRunnableThreadInList of a list in which no thread stands twice finds nothing exactly when no
-- thread of it can run. Else it finds one that can, and none of the list that can run was preempted
-- before it; no thread outside of the list changes.
pub find_runnable_thread-Found :
    (cpu : ℕ) (rs : ℕ → Runner) (ts : List ℕ)
    → Once ts
    → Found cpu rs none ts (find_runnable_thread cpu rs ts).1
      × ((u : ℕ)
          → (find_runnable_thread cpu rs ts).0 u ≡ (if has u ts then passed (rs u) else rs u))
unfolding find_runnable_thread
find_runnable_thread-Found cpu rs ts o =
    (runnable_loop-Found cpu rs none ts o, λ u. runnable_loop-passed cpu rs none ts u o)

pub Found-can :
    (cpu : ℕ) (rs : ℕ → Runner) (ts : List ℕ) (r : Option ℕ) (t : ℕ)
    → Found cpu rs none ts r
    → r ≡ some t
    → (has t ts ≡ true) × (thread_can_run cpu (rs t) ≡ true)
Found-can cpu rs ts none t f e = ground arith
Found-can cpu rs ts (some b) t (who, least, before) e = ground arith
