-- ===== src/Process/Signal.antt =====
-- The default handlers and the delivery of pending signals, of process/signal.c.
pub mod Deliver
pub mod Stop
pub mod Register
use frostbite.Base.{
  ℕ, zero, suc, ◌+◌, ◌-◌, ◌*◌, ◌/◌, ◌%◌, ◌^◌, ◌≤◌, ◌<◌, ◌≡◌, refl, sym, ap, ◌∙◌, ◌≢◌, ◌⊎◌, inl, inr,
  Bool, true, false, not, ◌&&◌, ◌||◌, Option, none, some, List, [], ◌∷◌, ◌++◌, arith, ◌==◌,
  if◌then◌else◌, ltb, leb, has, length, ℤ, pos, negsuc, eqb_ℤ, erase, bit_and, bit_or,
}
use frostbite.Memory.{kernel_base}
use frostbite.Process.{
  Process, Kernel, State, Handler, no_handler, def_handler, custom, Frame, is, unused, killed,
  stopped, ready, sleeping, set_proc, raise, toggle, sighup, sigint, sigabrt, sigkill, sigterm,
  sigchld, sigcont, sigstop, sigtstp, no_event, daemon_input, keyboard_input, fg_paused,
  state_change,
}
use frostbite.Process.Table.{get_process}
use frostbite.Process.Kill.{kill, gone}
use frostbite.Process.Wake.{wake_up}
use frostbite.Process.Exit.{
  exit_by_signal, switch_parent, live_parent, tell_parent, yield_fg, wake_paused,
}

-- Off the active queue that the process is on, if any.
unfoldable pub off_queues : ℕ → Kernel → Kernel
off_queues i k =
    if has i k.ready_que
    then record k { ready_que = erase i k.ready_que }
    else if has i k.wait_list
    then record k { wait_list = erase i k.wait_list }
    else k

-- The idle and the init process.
abbrev pub is_system : Process → Bool
is_system p = (p.pid == 0) || (p.pid == 1)

-- SIGHUP, SIGINT, SIGABRT and SIGTERM
unfoldable pub handle_term : ℕ → ℕ → Kernel → Kernel
handle_term signal i k = exit_by_signal i (bit_or 256 signal) (off_queues i k)

unfoldable pub tell_live_parent : ℕ → Kernel → Kernel
tell_live_parent i k = elim (live_parent i k) [ none ↦ k | some parent ↦ tell_parent parent i k ]

-- SIGKILL
unfoldable pub handle_kill : ℕ → ℕ → Kernel → Kernel
handle_kill signal i k =
    let p = k.table i in
    let k1 = set_proc i (record p { status = bit_or 256 (signal % 128) }) k in
    let parent = get_process p.ppid k1 in
    let k2 = tell_live_parent i k1 in
    let k3 =
      if is p.state stopped
      then record k2 { suspended = erase i k2.suspended }
      else wake_paused i (yield_fg i parent (off_queues i k2)) in
    let k4 = (kill p.pid (pos 0) (pos sigkill) (switch_parent p.pid 1 false k3)).1 in
    let k5 =
      set_proc i (record (k4.table i) { state = killed; event = pos p.pid; daemon = false }) k4 in
    if is_system p then k else wake_up state_change (record k5 { zombies = k5.zombies ++ (i ∷ []) })

-- A job of the parent for a process that stops, unless it is one already.
unfoldable pub make_job : ℕ → ℕ → Kernel → Kernel
make_job parent i k =
    let boss = k.table parent in
    let k1 = set_proc parent (record boss { jobs = boss.jobs + 1 }) k in
    if (k.table i).job_spec == 0
    then set_proc i (record (k1.table i) { job_spec = (k1.table parent).jobs }) k1
    else k

-- What a living parent is told of a process that stops.
unfoldable pub report_stop : ℕ → Kernel → Kernel
report_stop i k = elim (live_parent i k) [
  | none ↦ k
  | some parent ↦
      let k1 = tell_parent parent i k in
      make_job parent i
        (set_proc parent (record (k1.table parent) { wpid = pos (k1.table i).pid }) k1)
]

-- SIGTSTP and SIGSTOP
unfoldable pub handle_stop : ℕ → Kernel → Kernel
handle_stop i k =
    let p = k.table i in
    let k1 = off_queues i k in
    let k2 = set_proc i (record p { status = bit_or p.status 127 }) k1 in
    let parent = get_process p.ppid k2 in
    let k3 = wake_paused i (yield_fg i parent (report_stop i k2)) in
    let k4 = set_proc i (record (k3.table i) { state = stopped }) k3 in
    if is_system p || is p.state stopped
    then k
    else wake_up state_change (record k4 { suspended = k4.suspended ++ (i ∷ []) })

-- A stopped process goes back to where its event belongs.
unfoldable pub resume : ℕ → Kernel → Kernel
resume i k =
    let p = k.table i in
    let event = if not p.daemon && eqb_ℤ p.event daemon_input then keyboard_input else p.event in
    let k1 = record k { suspended = erase i k.suspended } in
    if eqb_ℤ p.event no_event
    then record (set_proc i (record p { state = ready }) k1) {
      ready_que = k1.ready_que ++ (i ∷ []);
    }
    else record (set_proc i (record p { state = sleeping; event = event }) k1) {
      wait_list = k1.wait_list ++ (i ∷ []);
    }

-- The foreground process sleeps until the resumed one is done.
unfoldable pub pause_fg : Kernel → Kernel
pause_fg k = elim k.fg [
  | none ↦ k
  | some f ↦
      let k1 = set_proc f (record (k.table f) { state = sleeping; event = fg_paused }) k in
      record k1 {
        ready_que = if has f k1.ready_que then erase f k1.ready_que else k1.ready_que;
        wait_list = k1.wait_list ++ (f ∷ []);
      }
]

-- SIGCHLD for a living parent.
unfoldable pub report_cont : ℕ → Kernel → Kernel
report_cont i k = elim (live_parent i k) [
  | none ↦ k
  | some parent ↦
      let boss = k.table parent in
      set_proc parent (record boss { signals = raise sigchld boss.signals }) k
]

-- SIGCONT
unfoldable pub handle_cont : ℕ → ℕ → Kernel → Kernel
handle_cont signal i k =
    let p = k.table i in
    let k1 = resume i k in
    let k2 = if p.daemon then k1 else record (pause_fg k1) { fg = some i } in
    let q = k2.table i in
    let k3 = set_proc i (record q { status = bit_or (q.status / 128 * 128) (signal % 128) }) k2 in
    if is_system p || not (is p.state stopped) then k else report_cont i k3

unfoldable pub def_handler_entry : ℕ → ℕ → Kernel → Kernel
def_handler_entry signal i k =
    if (signal == sighup) || (signal == sigint) || (signal == sigabrt) || (signal == sigterm)
    then handle_term signal i k
    else if signal == sigkill
    then handle_kill signal i k
    else if (signal == sigtstp) || (signal == sigstop)
    then handle_stop i k
    else if signal == sigcont
    then handle_cont signal i k
    else k

-- `def_handlers`, as `init_def_handlers` fills it.
abbrev pub def_handlers : ℕ → Handler
def_handlers signal =
    if (signal == sighup) || (signal == sigint) || (signal == sigabrt) || (signal == sigterm)
    then def_handler
    else if (signal == sigkill) || (signal == sigstop) || (signal == sigtstp) || (signal == sigcont)
    then def_handler
    else no_handler

-- SIG_DFL is address 0 and SIG_IGN address 1.
unfoldable pub register_handler : ℕ → ℕ → ℕ → Kernel → Kernel
register_handler i signal address k =
    let p = k.table i in
    let handler =
      if address == 1 then no_handler else if address == 0 then def_handler else custom address in
    if ltb 0 signal && ltb signal 31 && not ((signal == sigkill) || (signal == sigstop))
    then set_proc i (record p { handlers = λ n. if n == signal then handler else p.handlers n }) k
    else k

unfoldable pub set_sighandler_proxy : ℕ → Kernel → Kernel
set_sighandler_proxy handler k = record k { proxy_handler = handler }

unfoldable pub init_handlers : Process → Process
init_handlers p = record p { signals = λ n. false; handlers = def_handlers }

-- A custom handler runs in user mode if its address has no bit of KERNEL_BASE.
abbrev pub is_user : Handler → Bool
is_user no_handler = false
is_user def_handler = false
is_user (custom address) = bit_and address kernel_base == 0

-- The context frame by which the process enters the proxy handler, with what that needs on the
-- user stack: the signal, the handler and the interrupted program counter.
unfoldable pub redirect : ℕ → (signal handler : ℕ) → Frame → Frame
redirect proxy signal handler f =
    let sp = (f.sp0 + 2 ^ 64 - 24) % 2 ^ 64 in
    record f {
      elr = proxy;
      sp0 = sp;
      stack = λ a.
          if a == sp
          then signal
          else if a == (sp + 8) % 2 ^ 64
          then handler
          else if a == (sp + 16) % 2 ^ 64
          then f.elr
          else f.stack a;
    }

-- A SIGCONT continues the process also where it is caught.
unfoldable pub continue_caught : ℕ → ℕ → Kernel → Kernel
continue_caught signal i k = elim k.target_proc [
  | none ↦
      if signal == sigcont
      then def_handler_entry signal i (record k { target_proc = some i })
      else k
  | some _ ↦ k
]

unfoldable pub enter_custom : ℕ → ℕ → ℕ → Kernel → Kernel
enter_custom signal address i k =
    let p = k.table i in
    let k1 = set_proc i (record p { frame = redirect k.proxy_handler signal address p.frame }) k in
    let k2 = continue_caught signal i k1 in
    let q = k2.table i in
    set_proc i
      (record q { handlers = λ n. if n == signal then def_handlers signal else q.handlers n }) k2

-- The call of the handler of one signal.
unfoldable pub run_handler : ℕ → ℕ → Kernel → Kernel
run_handler signal i k = elim ((k.table i).handlers signal) [
  | no_handler ↦ k
  | def_handler ↦ record (def_handler_entry signal i (record k { target_proc = some i })) {
    target_proc = none;
  }
  | custom address ↦
      if is_user (custom address)
      then record (enter_custom signal address i k) { target_proc = none }
      else record k { target_proc = none; kernel_call = some address }
]

-- Back to sleep, if the signal interrupted a system call.
unfoldable pub back_to_sleep : ℕ → Bool → Kernel → Kernel
back_to_sleep i user_handler k =
    let p = k.table i in
    if has i k.ready_que && not (eqb_ℤ p.event no_event) && not user_handler
    then record (set_proc i (record p { state = sleeping }) k) {
      ready_que = erase i k.ready_que;
      wait_list = k.wait_list ++ (i ∷ []);
    }
    else k

-- The body of the loop of `check_pending_signals` for a process that is still alive.
unfoldable pub deliver : ℕ → ℕ → Kernel → Kernel
deliver i signal k =
    let p = k.table i in
    let k1 = run_handler signal i k in
    let q = k1.table i in
    let k2 = set_proc i (record q { signals = toggle signal q.signals }) k1 in
    if not (p.signals signal)
    then k
    else if is p.state stopped && not ((signal == sigkill) || (signal == sigcont))
    then k
    else back_to_sleep i (is_user (p.handlers signal)) k2

-- The loop from `signal` on; it breaks once the process is dead.
unfoldable pub deliver_from : ℕ → ℕ → ℕ → Kernel → Kernel
deliver_from zero signal i k = k
deliver_from (suc n) signal i k =
    let rest = deliver_from n (signal + 1) i (deliver i signal k) in
    if gone (k.table i).state then k else rest

unfoldable pub any_pending : ℕ → (ℕ → Bool) → Bool
any_pending zero bits = false
any_pending (suc n) bits = bits n || any_pending n bits

unfoldable pub check_pending_signals : ℕ → Kernel → Kernel
check_pending_signals i k = if any_pending 32 (k.table i).signals then deliver_from 32 0 i k else k
