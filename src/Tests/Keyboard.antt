-- ===== src/Tests/Keyboard.antt =====
-- A keyboard with nothing pressed, whose controller is ready and acknowledges.
use obos_old.Prelude.{◌+◌, ◌≡◌, refl, get_elem?, true, false, [], ◌∷◌, some}
use obos_old.Outcome.{done}
use obos_old.Keyboard.ScanCodes.{key_cap, g_keys}
use obos_old.Keyboard.{
  out, send_eoi, Keyboard, act, wait_ready, send_all, send_loop, send_command, note_key, handle_key,
  switch_locks, plain_key, keyboard_interrupt,
}
use obos_old.Keyboard.Interrupt.{eois, keyboard_interrupt-Ended}

abbrev idle : Keyboard
idle = record {
  is_scroll_lock = false;
  is_number_lock = false;
  is_caps_lock = false;
  is_shift_pressed = false;
  is_extended = false;
  keys = λ c. record { n_pressed = 0; is_pressed = false };
  reads = 2 ∷ 0 ∷ 0 ∷ 0xfe ∷ 0 ∷ 0 ∷ 0xfa ∷ [];
  log = [];
}

-- The answer to the first round asks for it again.
abbrev after_leds : Keyboard
after_leds = record idle { reads = []; log = out 0xed ∷ out 4 ∷ out 0xed ∷ out 4 ∷ [] }

sends : send_command (0xed ∷ 4 ∷ []) idle ≡ done (0xfa, after_leds)
unfolding send_command send_loop send_all wait_ready
sends = refl

-- The key Q.
q_entry : get_elem? g_keys 0x10 ≡ some (key_cap b'Q' 0 false 0)
unfolding g_keys
q_entry = refl

abbrev q_typed : Keyboard
q_typed = act send_eoi (note_key idle 0x10 false (key_cap b'Q' 0 false 0))

types_q : keyboard_interrupt idle 0x10 ≡ done q_typed
unfolding keyboard_interrupt plain_key handle_key switch_locks g_keys
types_q = refl

keyboard_interrupt-Ended_example : eois q_typed.log ≡ eois idle.log + 1
keyboard_interrupt-Ended_example = keyboard_interrupt-Ended idle 0x10 q_typed types_q

-- The enter key of the number pad.
enter_entry : get_elem? g_keys 0x1c ≡ some (key_cap 10 0 true 0)
unfolding g_keys
enter_entry = refl
