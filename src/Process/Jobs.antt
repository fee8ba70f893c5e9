-- ===== src/Process/Jobs.antt =====
-- `move_to_fore` and `move_to_back` of process/process.c.
pub mod Fore
use frostbite.Base.{
  erase, ℕ, zero, suc, ◌+◌, ◌-◌, ◌*◌, ◌/◌, ◌%◌, ◌^◌, ◌≤◌, ◌<◌, ◌≡◌, refl, sym, ap, ◌∙◌, ◌≢◌, ◌⊎◌,
  inl, inr, Bool, true, false, not, ◌&&◌, ◌||◌, Option, none, some, List, [], ◌∷◌, ◌++◌, arith,
  ◌==◌, if◌then◌else◌, ltb, leb, has, length, ℤ, pos, negsuc, eqb_ℤ,
}
use frostbite.Process.{
  Process, Kernel, is, stopped, sleeping, ready, set_proc, daemon_input, keyboard_input, fg_paused,
}

unfoldable pub wake_in_fore : ℕ → Kernel → Kernel
wake_in_fore i k =
    let p = k.table i in
    if is p.state sleeping
    then record (set_proc i (record p { state = ready }) k) { wait_list = erase i k.wait_list }
    else k

-- `process` is the slot, `none` for NULL.
unfoldable pub move_to_fore : Option ℕ → Kernel → Kernel
move_to_fore none k = k
move_to_fore (some i) k =
    let p = k.table i in
    let k1 = set_proc i (record p { daemon = false }) k in
    let event = if eqb_ℤ p.event daemon_input then keyboard_input else p.event in
    let k2 = wake_in_fore i (set_proc i (record p { daemon = false; event = event }) k) in
    if is p.state stopped then k1 else record k2 {
      fg = some i;
      ready_que = if has i k2.ready_que then k2.ready_que else k2.ready_que ++ (i ∷ []);
    }

unfoldable pub move_to_back : Option ℕ → Kernel → Kernel
move_to_back none k = k
move_to_back (some i) k =
    let p = k.table i in
    let event =
      if eqb_ℤ p.event keyboard_input || eqb_ℤ p.event fg_paused then daemon_input else p.event in
    if is p.state stopped then set_proc i (record p { daemon = true; event = event }) k else k
