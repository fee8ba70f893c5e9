-- ===== src/Syscall/Dispatch.antt =====
-- The table of system calls and `system_call` of irq/syscall.c.
use frostbite.Base.{
  eqb→eq, Bool-cases, ℕ, zero, suc, ◌-◌, ◌≤◌, ◌<◌, ◌≡◌, refl, ap, ◌≢◌, ◌⊎◌, inl, inr, false, Option,
  none, some, List, [], ◌∷◌, arith, ◌==◌, if◌then◌else◌, ltb, length, ℤ, pos, negsuc,
}

pub data Call : Type 0 where
  write sleep exit wait open_file close_file file_size read_file : Call
  fork exec keyboard_read get_pid read_root_dir get_ppid active_procs proc_data : Call
  kill signal pstatus pctrl get_jpid setenv getenv unsetenv getfullenv switchpenv : Call

abbrev pub total_syscall_functions : ℕ
total_syscall_functions = 26

abbrev pub sig_proxy_request : ℕ
sig_proxy_request = 101

-- `init_system_call`: the calls in the order of their numbers.
abbrev pub call_order : List Call
call_order =
    Call.write ∷ Call.sleep ∷ Call.exit ∷ Call.wait ∷ Call.open_file ∷ Call.close_file
    ∷ Call.file_size ∷ Call.read_file ∷ Call.fork ∷ Call.exec ∷ Call.keyboard_read ∷ Call.get_pid
    ∷ Call.read_root_dir ∷ Call.get_ppid ∷ Call.active_procs ∷ Call.proc_data ∷ Call.kill
    ∷ Call.signal ∷ Call.pstatus ∷ Call.pctrl ∷ Call.get_jpid ∷ Call.setenv ∷ Call.getenv
    ∷ Call.unsetenv ∷ Call.getfullenv ∷ Call.switchpenv ∷ []

abbrev pub nth : List Call → ℕ → Option Call
nth [] n = none
nth (c ∷ cs) zero = some c
nth (c ∷ cs) (suc n) = nth cs n

-- `syscall_list`
unfoldable pub syscall_list : ℕ → Option Call
syscall_list index = nth call_order index

-- What `system_call` does: it comes back from a signal handler, fails with -1, calls a function, or calls
-- through an entry that is NULL or behind the table.
pub data Route : Type 0 where
  proxy_restore : Route
  refuse : Route
  run : Call → Route
  no_function : Route

-- The call through an entry of the table.
abbrev run_entry : Option Call → Route
run_entry none = no_function
run_entry (some c) = run c

unfoldable pub route : (index argc : ℤ) → Route
route (negsuc n) argc = refuse
route (pos n) argc = if n == sig_proxy_request then proxy_restore else elim argc [
  | negsuc m ↦ refuse
  | pos m ↦ if ltb (total_syscall_functions - 1) n then refuse else run_entry (syscall_list n)
]

nth-some : (cs : List Call) (n : ℕ) → n < length cs → (c : Call) × (nth cs n ≡ some c)
nth-some [] n lt = absurd (omega arith)
nth-some (c ∷ cs) zero lt = (c, refl)
nth-some (c ∷ cs) (suc n) lt = nth-some cs n (omega arith)

-- The calls that are served: the function of the number, with a count of arguments.
abbrev pub Serves : (index argc : ℤ) → Route → Type 0
Serves index argc r =
    (n : ℕ) × (m : ℕ) × (c : Call) × (index ≡ pos n)
    × (argc ≡ pos m)
    × (n < total_syscall_functions)
    × (syscall_list n ≡ some c)
    × (r ≡ run c)

-- The calls that are refused have no such number, or no such count.
abbrev pub Refuses : (index argc : ℤ) → Route → Type 0
Refuses index argc r =
    (index ≢ pos 101)
    × ((n m : ℕ) → index ≡ pos n → argc ≡ pos m → total_syscall_functions ≤ n)
    × (r ≡ refuse)

route_number :
    (n : ℕ) (argc : ℤ)
    → (n == 101) ≡ false
    → Serves (pos n) argc (route (pos n) argc) ⊎ Refuses (pos n) argc (route (pos n) argc)
unfolding route syscall_list
route_number n (negsuc m) other = inr ((λ e. ground (arith, e)), (λ n' m' e e'. cc), rw other refl)
route_number n (pos m) other = elim (Bool-cases (ltb 25 n)) [
  | inl high ↦
      inr ((λ e. ground (arith, e)), (λ n' m' e e'. ground (arith, e)), rw (other, high) refl)
  | inr low ↦
      let small : n < 26 = ground arith in
      let (c, e) = nth-some call_order n small in
      inl (n, m, c, refl, refl, small, e, rw (other, low, e) refl)
]

-- system_call never calls through an entry that is NULL or behind its table. It takes 101 for the way back from a
-- signal handler, calls the function in the table for the numbers 0 to 25 with a count of arguments
-- that is not negative, and refuses all else.
pub route-cases :
    (index argc : ℤ)
    → ((index ≡ pos 101) × (route index argc ≡ proxy_restore))
      ⊎ (Serves index argc (route index argc) ⊎ Refuses index argc (route index argc))
unfolding route
route-cases (negsuc n) argc = inr (inr ((λ e. cc), (λ n' m e e'. cc), refl))
route-cases (pos n) argc = elim (Bool-cases (n == sig_proxy_request)) [
  | inl proxy ↦ inl (ap pos (eqb→eq n 101 proxy), rw proxy refl)
  | inr other ↦ inr (route_number n argc other)
]
