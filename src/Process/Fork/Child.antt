-- ===== src/Process/Fork/Child.antt =====
-- What fork returns, and what the child is.
use frostbite.Process.Fork.{
  copy_parent, fork_child, fork, name_child, named, twin, put_uvm, start_child,
}
use frostbite.Base.{
  Option-cases, ℕ, ◌+◌, ◌≤◌, ◌<◌, ◌≡◌, refl, ap, ◌∙◌, ◌≢◌, ◌⊎◌, inl, inr, true, false, [], ◌∷◌,
  ◌++◌, ◌==◌, if◌then◌else◌, pos, negsuc, eqb_of_ne, eqb_refl, Bool-cases,
}
use frostbite.Process.{Kernel, set_proc, unused, ready, proc_table_size}
use frostbite.Process.Load.Slot.{Allocated, alloc_new_process-Allocated}
use frostbite.Process.Load.{alloc_new_process, new_process, Uvm}
use frostbite.Process.Fork.Queues.{yield_to_child-fg, name_child-table}
use frostbite.Process.Signal.{init_handlers, def_handlers}
use frostbite.Fat.{Image}

-- The process that fork made in slot `i`, for the current process of `k`.
pub record Forked (k : Kernel) (i : ℕ) (k' : Kernel) : Type 0 where
  pub slot : (1 ≤ i) × (i < proc_table_size) × ((k.table i).state ≡ unused)
  pub pids : ((k'.table i).pid ≡ k.pid_num) × (k'.pid_num ≡ k.pid_num + 1)
  pub family :
      ((k'.table i).name ≡ (k.table k.curr).name) × ((k'.table i).ppid ≡ (k.table k.curr).pid)
  pub fds : (k'.table i).fd_table ≡ (k.table k.curr).fd_table
  pub frame : (k'.table i).frame ≡ record (k.table k.curr).frame { x0 = 0 }
  pub signals : ((k'.table i).signals ≡ (λ n. false)) × ((k'.table i).handlers ≡ def_handlers)
  pub runs : ((k'.table i).state ≡ ready) × (k'.ready_que ≡ k.ready_que ++ (i ∷ []))
  pub others : (j : ℕ) → (j == i) ≡ false → k'.table j ≡ k.table j

name_child-rest :
    (i : ℕ) (k : Kernel)
    → ((name_child i k).curr ≡ k.curr)
      × ((name_child i k).ready_que ≡ k.ready_que)
      × ((name_child i k).pid_num ≡ k.pid_num)
unfolding name_child set_proc
name_child-rest i k =
    let (f, e) = yield_to_child-fg (set_proc i (named (k.table k.curr) (k.table i)) k) in
    rw e (refl, refl, refl)

-- The child of the current process in the slot `i` of the kernel `k1`, where its memory is copied.
copied-table :
    (img : Image) (i : ℕ) (k : Kernel) (u : Uvm)
    → (k.curr == i) ≡ false
    → (j : ℕ)
    → (start_child i (put_uvm i u (name_child i k))).1.table j ≡ (
        if j == i
        then twin (k.table k.curr) (record (named (k.table k.curr) (k.table i)) { env = u.env })
        else k.table j)
unfolding start_child put_uvm set_proc init_handlers
copied-table img i k u other j = elim (Bool-cases (j == i)) [
  | inl here ↦
      rw
        (
          here,
          (name_child-rest i k).0,
          other,
          eqb_refl i,
          name_child-table i k i,
          name_child-table i k k.curr,
          eqb_refl i,
          other,
        )
        refl
  | inr there ↦ rw (there, name_child-table i k j, there) refl
]

start_child-pid :
    (i : ℕ) (k : Kernel) (u : Uvm)
    → (start_child i (put_uvm i u (name_child i k))).0 ≡ pos (k.table i).pid
unfolding start_child put_uvm set_proc
start_child-pid i k u = rw (eqb_refl i, name_child-table i k i, eqb_refl i) refl

start_child-rest :
    (i : ℕ) (k : Kernel) (u : Uvm)
    → let k' = (start_child i (put_uvm i u (name_child i k))).1 in
      (k'.ready_que ≡ k.ready_que ++ (i ∷ [])) × (k'.pid_num ≡ k.pid_num)
unfolding start_child put_uvm set_proc
start_child-rest i k u = let (c, q, p) = name_child-rest i k in (ap (λ t. t ++ (i ∷ [])) q, p)

not_curr :
    (k : Kernel) (i : ℕ)
    → (k.table k.curr).state ≢ unused
    → (k.table i).state ≡ unused
    → (k.curr == i) ≡ false
not_curr k i used free = eqb_of_ne k.curr i (λ e. used (ap (λ t. (k.table t).state) e ∙ free))

-- What the slots hold once the new process is placed.
placed :
    (i : ℕ) (k k1 : Kernel) (page_map env : ℕ)
    → k1.table ≡ (set_proc i (new_process k.pid_num page_map env) k).table
    → (j : ℕ) → k1.table j ≡ (if j == i then new_process k.pid_num page_map env else k.table j)
unfolding set_proc
placed i k k1 page_map env fresh j = ap (λ t. t j) fresh

-- The kernel after the call that succeeds.
forked :
    (img : Image) (i : ℕ) (k k1 : Kernel) (u : Uvm)
    → Allocated k i k1
    → (k.table k.curr).state ≢ unused
    → Forked k i (start_child i (put_uvm i u (name_child i k1))).1
unfolding init_handlers
forked img i k k1 u a used =
    let (page_map, env, fresh) = a.fresh in
    let k' = (start_child i (put_uvm i u (name_child i k1))).1 in
    let apart = not_curr k i used a.free in
    let other : (k1.curr == i) ≡ false = rw a.rest.0 apart in
    let (queue, pid) = start_child-rest i k1 u in
    let same_curr : k1.table k1.curr ≡ k.table k.curr =
      rw a.rest.0 (placed i k k1 page_map env fresh k.curr ∙ rw apart refl) in
    let new : k1.table i ≡ new_process k.pid_num page_map env =
      placed i k k1 page_map env fresh i ∙ rw (eqb_refl i) refl in
    let parent = k.table k.curr in
    let child = record (named parent (new_process k.pid_num page_map env)) { env = u.env } in
    let is_twin : k'.table i ≡ twin parent child =
      copied-table img i k1 u other i ∙ rw (eqb_refl i, same_curr, new) refl in
    record {
      slot = (a.range.0, a.range.1, a.free);
      pids = (ap (λ p. p.pid) is_twin, pid ∙ a.next_pid);
      family = (ap (λ p. p.name) is_twin, ap (λ p. p.ppid) is_twin);
      fds = ap (λ p. p.fd_table) is_twin;
      frame = ap (λ p. p.frame) is_twin;
      signals = (ap (λ p. p.signals) is_twin, ap (λ p. p.handlers) is_twin);
      runs = (ap (λ p. p.state) is_twin, queue ∙ ap (λ t. t ++ (i ∷ [])) a.rest.1);
      others = λ j ne.
          copied-table img i k1 u other j ∙ rw ne (placed i k k1 page_map env fresh j ∙ rw ne refl);
    }

-- fork fails with -1, or returns the next PID, having made a ready child of the current process in a
-- free slot: with its name, files and frame, apart from the 0 that the child gets, without pending
-- signals or custom handlers, and last on the ready queue. No other process changes.
pub fork-Forked :
    (img : Image) (trap_return : ℕ) (k : Kernel)
    → (k.table k.curr).state ≢ unused
    → ((fork img trap_return k).0 ≡ negsuc 0)
      ⊎ (((fork img trap_return k).0 ≡ pos k.pid_num)
          × ((i : ℕ) × Forked k i (fork img trap_return k).1))
unfolding fork fork_child
fork-Forked img trap_return k used = elim (Option-cases (alloc_new_process trap_return k)) [
  | inl full ↦ inl (rw (full, fork) refl)
  | inr ((i, k1), e) ↦
      let a = alloc_new_process-Allocated trap_return k i k1 e in
      let (page_map, env, fresh) = a.fresh in
      let u = copy_parent img i (name_child i k1) in
      let u1 : Uvm = record u { ok = true } in
      let new : (k1.table i).pid ≡ k.pid_num =
        ap (λ p. p.pid) (placed i k k1 page_map env fresh i) ∙ rw (eqb_refl i) refl in
      elim (Bool-cases u.ok) [
        | inl copied ↦ inr (
          rw (e, fork, copied) (start_child-pid i k1 u1 ∙ ap pos new),
          (i, rw (e, fork, copied) (forked img i k k1 u1 a used)),
        )
        | inr failed ↦ inl (rw (e, fork, failed) refl)
      ]
]
