-- ===== src/Keyboard/Interrupt.antt =====
-- keyboardInterrupt: what reaches the buffer, and the end of the interrupt.
use obos_old.Prelude.{
  ℕ, zero, suc, ◌+◌, ◌≤◌, ◌<◌, ◌≡◌, refl, ◌≢◌, inl, inr, Bool, true, false, not, List, [], ◌∷◌,
  ◌++◌, some, ◌==◌, if◌then◌else◌, get_elem?, length, add64, arith, Bool-cases, Option-cases,
  get_elem?-none,
}
use obos_old.Outcome.{done, fault, >>=-eq-done}
use obos_old.Keyboard.ScanCodes.{KeyCap, g_keys}
use obos_old.Keyboard.{
  Action, write_key, out, send_eoi, Keyboard, act, send_command, led_command, set_leds, set_key,
  without_release, was_released, note_key, key_of, type_key, switch_locks, handle_key, plain_key,
  extended_key, keyboard_interrupt,
}
use obos_old.Keyboard.Commands.{outs, rounds, send_command-Sent}

abbrev pub eois : List Action → ℕ
eois [] = 0
eois (send_eoi ∷ xs) = suc (eois xs)
eois (_ ∷ xs) = eois xs

eois-append : (xs ys : List Action) → eois (xs ++ ys) ≡ eois xs + eois ys
eois-append [] ys = ground arith
eois-append (write_key k ∷ xs) ys = eois-append xs ys
eois-append (out k ∷ xs) ys = eois-append xs ys
eois-append (send_eoi ∷ xs) ys = ground (arith, eois-append xs ys)

eois-outs : (cs : List ℕ) → eois (outs cs) ≡ 0
eois-outs [] = refl
eois-outs (c ∷ cs) = eois-outs cs

eois-rounds : (n : ℕ) (cs : List ℕ) → eois (rounds n cs) ≡ 0
eois-rounds zero cs = refl
eois-rounds (suc n) cs =
    ground (arith, eois-append (outs cs) (rounds n cs), eois-outs cs, eois-rounds n cs)

-- One more end of the interrupt than before.
abbrev Ended : Keyboard → Keyboard → Type 0
Ended s s' = eois s'.log ≡ eois s.log + 1

set_leds-Ended : (s s' : Keyboard) → set_leds s ≡ done s' → Ended s s'
unfolding set_leds
set_leds-Ended s s' e =
    let (r, f, g) = >>=-eq-done (send_command (led_command s) s) _ s' e in
    let (k, l, o, q, t) = send_command-Sent (led_command s) s r.0 r.1 f in
    let sent : eois r.1.log ≡ eois s.log =
      ground
        (arith, q, eois-append s.log (rounds k (led_command s)), eois-rounds k (led_command s)) in
    ground (arith, eois-append r.1.log (send_eoi ∷ []))

switch_locks-Ended :
    (s : Keyboard) (code : ℕ) (s' : Keyboard) → switch_locks s code ≡ done s' → Ended s s'
unfolding switch_locks
switch_locks-Ended s code s' e = ground (
  arith,
  eois-append s.log (send_eoi ∷ []),
  set_leds-Ended (record s { is_caps_lock = not s.is_caps_lock }) s',
  set_leds-Ended (record s { is_scroll_lock = not s.is_scroll_lock }) s',
  set_leds-Ended (record s { is_number_lock = not s.is_number_lock }) s',
)

eois-type_key : (s : Keyboard) (cap : KeyCap) → eois (type_key s cap).log ≡ eois s.log
unfolding type_key
eois-type_key s cap = ground (
  arith,
  eois-append s.log (write_key (key_of s cap) ∷ []),
  eois-append s.log (write_key cap.extended_ch ∷ []),
)

eois-note_key :
    (s : Keyboard) (code : ℕ) (released : Bool) (cap : KeyCap)
    → eois (note_key s code released cap).log ≡ eois s.log
unfolding note_key
eois-note_key s code true cap = ground arith
eois-note_key s code false cap = ground (
  arith,
  eois-type_key
      (set_key code (record { n_pressed = add64 (s.keys code).n_pressed 1; is_pressed = true }) s)
      cap,
)

handle_key-Ended :
    (s : Keyboard) (code : ℕ) (released : Bool) (cap : KeyCap) (s' : Keyboard)
    → handle_key s code released cap ≡ done s'
    → Ended s s'
unfolding handle_key
handle_key-Ended s code true cap s' e =
    let t = note_key s code true cap in
    ground (arith, eois-note_key s code true cap, eois-append t.log (send_eoi ∷ []))
handle_key-Ended s code false cap s' e =
    ground (
      arith,
      eois-note_key s code false cap,
      switch_locks-Ended (note_key s code false cap) code s',
    )

plain_key-Ended :
    (s : Keyboard) (code : ℕ) (s' : Keyboard) → plain_key s code ≡ done s' → Ended s s'
unfolding plain_key
plain_key-Ended s code s' e = elim (Option-cases (get_elem? g_keys (without_release code))) [
  | inl n ↦ absurd (ground (arith, n))
  | inr (cap, n) ↦
      handle_key-Ended s (without_release code) (was_released code) cap s' (ground (arith, n))
]

extended_key-Ended :
    (s : Keyboard) (code : ℕ) (s' : Keyboard) → extended_key s code ≡ done s' → Ended s s'
unfolding extended_key
extended_key-Ended s code s' e = elim (Option-cases (get_elem? g_keys (without_release code))) [
  | inl n ↦ absurd (ground (arith, n))
  | inr (cap, n) ↦ elim (Bool-cases cap.skip_extended) [
    | inl skip ↦
        plain_key-Ended (record s { is_extended = false }) (without_release code) s'
          (ground (arith, n, skip))
    | inr kept ↦
        let key =
          if without_release code == 0x5b
          then 0x106
          else if without_release code == 0x5c
          then 0x103
          else cap.extended_ch in
        ground (
          arith,
          n,
          kept,
          eois-append (s.log ++ write_key key ∷ []) (send_eoi ∷ []),
          eois-append s.log (write_key key ∷ []),
        )
  ]
]

-- Whatever the byte and the state are, an interrupt of the keyboard that returns has signalled the
-- end of the interrupt once.
pub keyboard_interrupt-Ended :
    (s : Keyboard) (code : ℕ) (s' : Keyboard)
    → keyboard_interrupt s code ≡ done s'
    → eois s'.log ≡ eois s.log + 1
unfolding keyboard_interrupt
keyboard_interrupt-Ended s code s' e = ground (
  arith,
  eois-append s.log (send_eoi ∷ []),
  extended_key-Ended s code s',
  plain_key-Ended s code s',
)

length-g_keys : length g_keys ≡ 0x59
unfolding g_keys
length-g_keys = refl

-- A byte between 0x59 and 0x7f makes the interrupt handler index past its table of keys, whether it
-- came after 0xe0 or not.
pub keyboard_interrupt-fault :
    (s : Keyboard) (code : ℕ) → 0x59 ≤ code → code < 0x80 → keyboard_interrupt s code ≡ fault
unfolding keyboard_interrupt extended_key plain_key
keyboard_interrupt-fault s code l u =
    ground (arith, get_elem?-none g_keys code (rw length-g_keys l))

-- After 0xe0, the release of a key for which the table asks to skip this is handled like another
-- press of the key.
pub keyboard_interrupt-released :
    (s : Keyboard) (code : ℕ) (cap : KeyCap)
    → s.is_extended ≡ true
    → code ≤ 0x58
    → get_elem? g_keys code ≡ some cap
    → cap.skip_extended ≡ true
    → keyboard_interrupt s (code + 0x80)
      ≡ keyboard_interrupt (record s { is_extended = false }) code
unfolding keyboard_interrupt extended_key
keyboard_interrupt-released s code cap x u g k = ground (arith, g, k)

-- The key of a letter, pressed without 0xe0 before it, writes the letter once: a capital one if
-- either the caps lock is on or a shift key is down, a small one if both or neither are.
pub keyboard_interrupt-letter :
    (s : Keyboard) (code : ℕ) (entry : KeyCap)
    → s.is_extended ≡ false
    → code < 0x3a
    → code ≢ 0x2a
    → code ≢ 0x36
    → get_elem? g_keys code ≡ some entry
    → b'A' ≤ entry.ch
    → entry.ch ≤ b'Z'
    → (s' : Keyboard) × (keyboard_interrupt s code ≡ done s')
      × (s'.log
          ≡ (s.log
              ++ write_key (
                  if (if s.is_caps_lock then not s.is_shift_pressed else s.is_shift_pressed)
                  then entry.ch
                  else entry.ch + 32)
                ∷ [])
            ++ send_eoi ∷ [])
unfolding keyboard_interrupt plain_key handle_key note_key type_key key_of switch_locks
keyboard_interrupt-letter s code entry x u a b g l h =
    (act send_eoi (note_key s code false entry), ground (arith, g), ground (arith, g))
