-- ===== src/Process/Listing.antt =====
-- ShellCommand_ps of mylysos/process.c, the listing of the processes and threads. What it prints is
-- a list of its calls of CrtPrintf.
use mylysos.Base.{
  ℕ, zero, suc, ◌≤◌, ◌≡◌, refl, sym, false, List, [], ◌∷◌, ◌++◌, Option, none, some, length,
  length-append, arith, ◌==◌, if◌then◌else◌,
}
use mathlib.Core.List.{map}
use mathlib.Core.Path.{subst}
use mylysos.Process.{Kernel}
use mylysos.Process.Layout.{Layout, Threads, Processes, threads_of}

-- The names of the processes.
pub data Name : Type 0 where
  process_scheduler : Name
  keyboard_driver : Name
  fdd_driver : Name
  shell : Name
  user_process : Name

pub data Line : Type 0 where
  header : Line
  process_line : (process_id : ℕ) → Name → Line
  thread_line : (thread_id : ℕ) → Name → Line

unfoldable pub name_of : (process_id : ℕ) → Name
name_of id =
    if id == 0
    then process_scheduler
    else if id == 1
    then keyboard_driver
    else if id == 2
    then fdd_driver
    else if id == 3
    then shell
    else user_process

-- The inner loop, over the threads of a process; `none` where the fuel is used up.
unfoldable pub list_threads : (fuel : ℕ) → Kernel → Name → (now_thread : ℕ) → Option (List Line)
list_threads zero k name t = if t == 0 then some [] else none
list_threads (suc fuel) k name t =
    let rest = list_threads fuel k name (k.thread t).next_thread in
    if t == 0 then some [] else elim rest [
      | none ↦ none
      | some lines ↦ some (thread_line (k.thread t).thread_id name ∷ lines)
    ]

-- The outer loop, over the processes; `rounds` is the fuel of each inner one.
unfoldable pub list_processes : (fuel rounds : ℕ) → Kernel → (now_process : ℕ) → Option (List Line)
list_processes zero rounds k p = if p == 0 then some [] else none
list_processes (suc fuel) rounds k p =
    let b = k.process p in
    let name = name_of b.process_id in
    let rest = list_processes fuel rounds k b.next_process in
    if p == 0 then some [] else elim (list_threads rounds k name b.head_thread) [
      | none ↦ none
      | some threads ↦ elim rest [
        | none ↦ none
        | some lines ↦ some (process_line b.process_id name ∷ threads ++ lines)
      ]
    ]

-- ShellCommand_ps.
unfoldable pub shell_command_ps : (fuel rounds : ℕ) → Kernel → Option (List Line)
shell_command_ps fuel rounds k = elim (list_processes fuel rounds k k.head_process) [
  | none ↦ none
  | some lines ↦ some (header ∷ lines)
]

-- The lines for what the lists hold: each process, and behind it its threads.
unfoldable pub lines_of : Kernel → Layout → List Line
lines_of k [] = []
lines_of k ((p, ts) ∷ l) =
    let id = (k.process p).process_id in
    process_line id (name_of id) ∷ map (λ t. thread_line (k.thread t).thread_id (name_of id)) ts
    ++ lines_of k l

list_threads-lines :
    (fuel : ℕ) (k : Kernel) (p : ℕ) (name : Name) (ts : List ℕ) (h : ℕ)
    → length ts ≤ fuel
    → Threads k p h ts
    → list_threads fuel k name h ≡ some (map (λ t. thread_line (k.thread t).thread_id name) ts)
unfolding list_threads Threads
list_threads-lines zero k p name [] h le e = rw (list_threads, e) refl
list_threads-lines (suc fuel) k p name [] h le e = rw (list_threads, e) refl
list_threads-lines zero k p name (t ∷ ts) h le c = absurd (omega (arith, le))
list_threads-lines (suc fuel) k p name (t ∷ ts) h le (e, n, o, c) =
    let test : (t == 0) ≡ false = ground (arith, n) in
    let rest = list_threads-lines fuel k p name ts _ (omega (arith, le)) c in
    subst
      (λ x.
        list_threads (suc fuel) k name x
        ≡ some (map (λ t. thread_line (k.thread t).thread_id name) (t ∷ ts)))
      (sym e) (rw (list_threads, test, rest) refl)

list_processes-lines :
    (fuel rounds : ℕ) (k : Kernel) (l : Layout) (h : ℕ)
    → length l ≤ fuel
    → length (threads_of l) ≤ rounds
    → Processes k h l
    → list_processes fuel rounds k h ≡ some (lines_of k l)
unfolding list_processes Processes threads_of lines_of
list_processes-lines zero rounds k [] h le few e = rw (list_processes, e) refl
list_processes-lines (suc fuel) rounds k [] h le few e = rw (list_processes, e) refl
list_processes-lines zero rounds k ((p, ts) ∷ l) h le few c = absurd (omega (arith, le))
list_processes-lines (suc fuel) rounds k ((p, ts) ∷ l) h le few (e, n, d, c) =
    let test : (p == 0) ≡ false = ground (arith, n) in
    let both = length-append ts (threads_of l) in
    let rest =
      list_processes-lines fuel rounds k l _ (omega (arith, le)) (omega (arith, both, few)) c in
    let threads =
      list_threads-lines rounds k p (name_of (k.process p).process_id) ts _
        (omega (arith, both, few)) d in
    subst (λ x. list_processes (suc fuel) rounds k x ≡ some (lines_of k ((p, ts) ∷ l))) (sym e)
      (rw (list_processes, test, threads, rest) refl)

-- ShellCommand_ps ends, and prints the processes in their order, each followed by its threads in
-- theirs.
pub shell_command_ps-lines_of :
    (fuel rounds : ℕ) (k : Kernel) (l : Layout)
    → length l ≤ fuel
    → length (threads_of l) ≤ rounds
    → Processes k k.head_process l
    → shell_command_ps fuel rounds k ≡ some (header ∷ lines_of k l)
unfolding shell_command_ps
shell_command_ps-lines_of fuel rounds k l le few c =
    rw (shell_command_ps, list_processes-lines fuel rounds k l k.head_process le few c) refl
