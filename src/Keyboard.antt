-- ===== src/Keyboard.antt =====
-- The PS/2 keyboard driver: drivers/x86_64/ps2Keyboard/dmain.cpp, from the byte of a key to what
-- arrives in the input device's buffer. What the next reads of a port give is a list that the state
-- holds; what the driver does to the outside is written to a log, in order.
pub mod ScanCodes
pub mod Interrupt
pub mod Commands
use obos_old.Prelude.{
  ℕ, zero, suc, ◌+◌, ◌-◌, ◌*◌, ◌/◌, ◌%◌, Bool, true, false, ◌&&◌, ◌||◌, not, List, [], ◌∷◌, ◌++◌,
  Option, none, some, ◌==◌, ltb, leb, if◌then◌else◌, get_elem?, add64,
}
use obos_old.Outcome.{Outcome, done, fault, hang, ◌>>=◌}
use obos_old.Keyboard.ScanCodes.{KeyCap, g_keys}

pub record KeyState : Type 0 where
  pub n_pressed : ℕ
  pub is_pressed : Bool

pub data Action : Type 0 where
  write_key : ℕ → Action
  out : ℕ → Action
  send_eoi : Action

pub record Keyboard : Type 0 where
  pub is_scroll_lock : Bool
  pub is_number_lock : Bool
  pub is_caps_lock : Bool
  pub is_shift_pressed : Bool
  pub is_extended : Bool
  pub keys : ℕ → KeyState
  pub reads : List ℕ
  pub log : List Action

abbrev pub act : Action → Keyboard → Keyboard
act a s = record s { log = s.log ++ a ∷ [] }

-- `while ((inb(0x64) & 0b10) == 0b10);`
unfoldable pub wait_ready : List ℕ → Outcome (List ℕ)
wait_ready [] = hang
wait_ready (r ∷ rs) = let rest = wait_ready rs in if r / 2 % 2 == 1 then rest else done rs

-- The bytes go out one by one.
unfoldable pub send_all : List ℕ → Keyboard → Outcome Keyboard
send_all [] s = done s
send_all (c ∷ cs) s =
    wait_ready s.reads >>= λ rs. send_all cs (act (out c) (record s { reads = rs }))

-- The rounds of sendCommand, `tries` at most, with the byte that it returns.
unfoldable pub send_loop : ℕ → ℕ → List ℕ → Keyboard → Outcome (ℕ × Keyboard)
send_loop zero ret commands s = done (ret, s)
send_loop (suc tries) ret commands s = send_all commands s >>= λ s1. elim s1.reads [
  | [] ↦ hang
  | r ∷ rs ↦ elim (r == 0xfe) [
    | true ↦ send_loop tries r commands (record s1 { reads = rs })
    | false ↦ done (r, record s1 { reads = rs })
  ]
]

unfoldable pub send_command : List ℕ → Keyboard → Outcome (ℕ × Keyboard)
send_command commands s = send_loop 5 0 commands s

abbrev pub bit : Bool → ℕ
bit true = 1
bit false = 0

abbrev pub led_command : Keyboard → List ℕ
led_command s =
    0xed ∷ (bit s.is_scroll_lock + 2 * bit s.is_number_lock + 4 * bit s.is_caps_lock) ∷ []

-- The three LEDs, and the end of the interrupt.
unfoldable pub set_leds : Keyboard → Outcome Keyboard
set_leds s = send_command (led_command s) s >>= λ r. done (act send_eoi r.1)

abbrev is_letter : ℕ → Bool
is_letter ch = leb b'A' ch && leb ch b'Z'

-- What a key with a character writes.
unfoldable pub key_of : Keyboard → KeyCap → ℕ
key_of s cap =
    let upper = if s.is_caps_lock then not s.is_shift_pressed else s.is_shift_pressed in
    if is_letter cap.ch
    then (if upper then cap.ch else cap.ch - b'A' + b'a')
    else if s.is_shift_pressed && not (cap.shift_alias == 0)
    then cap.shift_alias
    else cap.ch

-- A press writes the key's character, or its special key.
unfoldable pub type_key : Keyboard → KeyCap → Keyboard
type_key s cap =
    if not (cap.ch == 0)
    then act (write_key (key_of s cap)) s
    else if not (cap.extended_ch == 0)
    then act (write_key cap.extended_ch) s
    else s

abbrev pub set_key : ℕ → KeyState → Keyboard → Keyboard
set_key code k s = record s { keys = λ c. if c == code then k else s.keys c }

-- The keys that switch a lock.
unfoldable pub switch_locks : Keyboard → ℕ → Outcome Keyboard
switch_locks s code =
    if code == 0x3a
    then set_leds (record s { is_caps_lock = not s.is_caps_lock })
    else if code == 0x46
    then set_leds (record s { is_scroll_lock = not s.is_scroll_lock })
    else if code == 0x45
    then set_leds (record s { is_number_lock = not s.is_number_lock })
    else done (act send_eoi s)

-- The state of the key, what it writes, and the shift keys.
unfoldable pub note_key : Keyboard → ℕ → Bool → KeyCap → Keyboard
note_key s code released cap =
    let noted : Keyboard =
      set_key code
        (record { n_pressed = add64 (s.keys code).n_pressed 1; is_pressed = not released }) s in
    let typed : Keyboard = if released then noted else type_key noted cap in
    if (code == 0x2a) || (code == 0x36)
    then record typed { is_shift_pressed = not released }
    else typed

-- A key that was pressed or released, once its entry in the table is known.
unfoldable pub handle_key : Keyboard → ℕ → Bool → KeyCap → Outcome Keyboard
handle_key s code released cap =
    let t = note_key s code released cap in
    if released
    then done (
        act send_eoi
          (set_key code (record { n_pressed = 0; is_pressed = (t.keys code).is_pressed }) t))
    else switch_locks t code

abbrev pub was_released : ℕ → Bool
was_released code = leb 128 code

abbrev pub without_release : ℕ → ℕ
without_release code = if was_released code then code - 128 else code

-- From `skip_extended_processing` on; a code behind the table reads outside it.
unfoldable pub plain_key : Keyboard → ℕ → Outcome Keyboard
plain_key s code = elim (get_elem? g_keys (without_release code)) [
  | none ↦ fault
  | some cap ↦ handle_key s (without_release code) (was_released code) cap
]

-- The second byte of an extended key. Where the table asks to skip this, the release bit is gone.
unfoldable pub extended_key : Keyboard → ℕ → Outcome Keyboard
extended_key s code = elim (get_elem? g_keys (without_release code)) [
  | none ↦ fault
  | some cap ↦
      let left : Keyboard = record s { is_extended = false } in
      let key =
        if without_release code == 0x5b
        then 0x106
        else if without_release code == 0x5c
        then 0x103
        else cap.extended_ch in
      if cap.skip_extended
      then plain_key left (without_release code)
      else done (act send_eoi (act (write_key key) left))
]

-- `code` is what port 0x60 gives.
unfoldable pub keyboard_interrupt : Keyboard → ℕ → Outcome Keyboard
keyboard_interrupt s code =
    let s1 : Keyboard = if code == 0xe0 then record s { is_extended = true } else s in
    if ltb 0xd8 code
    then done (act send_eoi s1)
    else if s1.is_extended
    then extended_key s1 code
    else plain_key s1 code
