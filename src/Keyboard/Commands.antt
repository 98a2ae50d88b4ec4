-- ===== src/Keyboard/Commands.antt =====
-- sendCommand: what it sends, and when it gives up.
use obos_old.Prelude.{
  ℕ, zero, suc, ◌≤◌, ◌≡◌, refl, ◌⊎◌, inl, inr, List, [], ◌∷◌, ◌++◌, ◌==◌, arith, Bool-cases,
}
use obos_old.Outcome.{done, >>=-eq-done}
use obos_old.Keyboard.{Action, out, Keyboard, act, wait_ready, send_all, send_loop, send_command}

abbrev pub outs : List ℕ → List Action
outs [] = []
outs (c ∷ cs) = out c ∷ outs cs

-- The commands, as many times over.
abbrev pub rounds : ℕ → List ℕ → List Action
rounds zero cs = []
rounds (suc n) cs = outs cs ++ rounds n cs

append_step : (xs ys : List Action) (a : Action) → (xs ++ a ∷ []) ++ ys ≡ xs ++ a ∷ ys
append_step [] ys a = refl
append_step (x ∷ xs) ys a = ground (arith, append_step xs ys a)

append_three : (xs ys zs : List Action) → (xs ++ ys) ++ zs ≡ xs ++ (ys ++ zs)
append_three [] ys zs = refl
append_three (x ∷ xs) ys zs = ground (arith, append_three xs ys zs)

append_nil : (xs : List Action) → xs ++ [] ≡ xs
append_nil [] = refl
append_nil (x ∷ xs) = ground (arith, append_nil xs)

pub send_all-log :
    (cs : List ℕ) (s s' : Keyboard) → send_all cs s ≡ done s' → s'.log ≡ s.log ++ outs cs
unfolding send_all
send_all-log [] s s' e = ground (arith, append_nil s.log)
send_all-log (c ∷ cs) s s' e =
    let (rs, f, g) = >>=-eq-done (wait_ready s.reads) _ s' e in
    let rest = send_all-log cs (act (out c) (record s { reads = rs })) s' g in
    ground (arith, append_step s.log (outs cs) (out c))

-- What a loop of at most `tries` rounds leaves behind.
abbrev pub Sent : ℕ → List ℕ → Keyboard → ℕ → Keyboard → Type 0
Sent tries cs s r s' =
    (k : ℕ) × (k ≤ tries) × (1 ≤ k) × (s'.log ≡ s.log ++ rounds k cs) × (r ≡ 0xfe → k ≡ tries)

reads-cases : (xs : List ℕ) → (xs ≡ []) ⊎ ((x : ℕ) × (ys : List ℕ) × (xs ≡ x ∷ ys))
reads-cases [] = inl refl
reads-cases (x ∷ ys) = inr (x, ys, refl)

-- The same for a loop that may have no round left.
abbrev SentOrNot : ℕ → ℕ → List ℕ → Keyboard → ℕ → Keyboard → Type 0
SentOrNot tries ret cs s r s' =
    (k : ℕ) × (k ≤ tries)
    × (s'.log ≡ s.log ++ rounds k cs)
    × (r ≡ 0xfe → k ≡ tries)
    × (k ≡ 0 → (tries ≡ 0) × (r ≡ ret))

send_loop-SentOrNot :
    (tries ret : ℕ) (cs : List ℕ) (s : Keyboard) (r : ℕ) (s' : Keyboard)
    → send_loop tries ret cs s ≡ done (r, s')
    → SentOrNot tries ret cs s r s'
unfolding send_loop
send_loop-SentOrNot zero ret cs s r s' e =
    (0, omega arith, ground (arith, append_nil s.log), λ q. refl, λ z. ground arith)
send_loop-SentOrNot (suc tries) ret cs s r s' e =
    let (s1, f, g) = >>=-eq-done (send_all cs s) _ (r, s') e in
    let sent = send_all-log cs s s1 f in
    elim (reads-cases s1.reads) [
      | inl n ↦ absurd (ground (arith, n))
      | inr (b, rs, n) ↦ elim (Bool-cases (b == 0xfe)) [
        | inl again ↦
            let (k, l, q, t, z) =
              send_loop-SentOrNot tries b cs (record s1 { reads = rs }) r s' (ground (arith, n)) in
            (
              suc k,
              omega arith,
              ground (arith, append_three s.log (outs cs) (rounds k cs)),
              λ h. ground (arith, t h),
              λ h. absurd (omega arith),
            )
        | inr last ↦ (
          1,
          omega arith,
          ground (arith, n, append_nil (outs cs)),
          λ h. absurd (ground (arith, n)),
          λ h. absurd (omega arith),
        )
      ]
    ]

-- When sendCommand returns, it has sent the commands, all of them and in order, between one and
-- five times over, and five times if the answer that it returns still asks for them again.
pub send_command-Sent :
    (cs : List ℕ) (s : Keyboard) (r : ℕ) (s' : Keyboard)
    → send_command cs s ≡ done (r, s')
    → Sent 5 cs s r s'
unfolding send_command
send_command-Sent cs s r s' e =
    let (k, l, q, t, z) = send_loop-SentOrNot 5 0 cs s r s' e in (k, l, ground arith, q, t)
