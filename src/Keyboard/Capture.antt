-- ===== src/Keyboard/Capture.antt =====
-- The way of a key from the UART to the foreground process: capture_key and notify_process of
-- io/keyboard.c, and uart_handler of io/uart.c.
use frostbite.Base.{
  ℕ, Bool, Option, none, some, List, [], ◌∷◌, ◌++◌, ◌==◌, if◌then◌else◌, pos, eqb_ℤ,
}
use frostbite.Keyboard.{KeyBuffer, write_key_buffer}
use frostbite.Process.{Kernel, keyboard_input, sigint, sigtstp}
use frostbite.Process.Table.{get_process, get_fg_process}
use frostbite.Process.Kill.{kill}
use frostbite.Process.Wake.{wake_up}

abbrev pub ascii_ctrl_c : ℕ
ascii_ctrl_c = 3

abbrev pub ascii_ctrl_z : ℕ
ascii_ctrl_z = 26

-- The kernel, the buffer, and the characters that went to the console so far.
pub record Console : Type 0 where
  pub kernel : Kernel
  pub keys : KeyBuffer
  pub echo : List ℕ

-- The signal that a key stands for.
unfoldable pub key_signal : ℕ → Option ℕ
key_signal key =
    if key == ascii_ctrl_c then some sigint else if key == ascii_ctrl_z then some sigtstp else none

-- The PID of the sender; kill reads it only for groups.
abbrev pub sender_of : ℕ → Kernel → ℕ
sender_of f k = elim (get_process (k.table f).ppid k) [ none ↦ 0 | some i ↦ (k.table i).pid ]

-- The key goes to the buffer if the foreground process in slot `f` waits for one.
unfoldable pub push_key : ℕ → ℕ → Console → Console
push_key f key c =
    if eqb_ℤ (c.kernel.table f).event keyboard_input
    then record c { keys = write_key_buffer key c.keys }
    else c

-- A key that is no signal.
unfoldable pub plain_key : ℕ → ℕ → Console → Console
plain_key f key c =
    if eqb_ℤ (c.kernel.table f).event keyboard_input
    then push_key f key c
    else record c { echo = c.echo ++ ((if key == 13 then 10 else key) ∷ []) }

-- The foreground process in slot `f` is there, and the key has been read.
unfoldable pub take_key : ℕ → ℕ → Console → Console
take_key f key c = elim (key_signal key) [
  | none ↦ plain_key f key c
  | some signal ↦
      let k = (kill (sender_of f c.kernel) (pos (c.kernel.table f).pid) (pos signal) c.kernel).1 in
      push_key f key (record c { kernel = k })
]

-- Without a foreground process the key is not read.
unfoldable pub capture_key : ℕ → Console → Console
capture_key key c = elim (get_fg_process c.kernel) [ none ↦ c | some f ↦ take_key f key c ]

-- The loop of uart_handler over the characters that the device holds. Without a foreground process no
-- key is read, and the loop does not end: `none`.
unfoldable pub capture_keys : List ℕ → Console → Option Console
capture_keys [] c = some c
capture_keys (key ∷ keys) c = elim (get_fg_process c.kernel) [
  | none ↦ none
  | some f ↦ capture_keys keys (capture_key key c)
]

unfoldable pub notify_process : Kernel → Kernel
notify_process k = wake_up keyboard_input k

-- `receiving` is bit 4 of the interrupt status.
unfoldable pub uart_handler : Bool → List ℕ → Console → Option Console
uart_handler receiving keys c =
    let received : Option Console = elim (capture_keys keys c) [
      | none ↦ none
      | some c1 ↦ some (record c1 { kernel = notify_process c1.kernel })
    ] in
    if receiving then received else some c
