-- ===== src/Proc/Life.antt =====
-- TDT4186 - OS/Labs/Lab3/kernel/proc.c: allocproc, freeproc, fork, exit, wait and growproc. A name
-- is the text before its NUL; it has at most fifteen characters, so that safestrcpy copies it whole.
-- A pid is the bits of an int. The kernel stack and the saved context of a process have no part here.
use ntnu_courses.Base.{
  ℕ, ◌+◌, ◌-◌, ◌%◌, ◌^◌, Bool, ◌&&◌, true, false, not, Option, none, some, List, [], ◌∷◌, ◌==◌,
  if◌then◌else◌, update, Result, ok, ◌>>◌, panic_if,
}
use ntnu_courses.Proc.{
  Proc, Table, nproc, unused, used, runnable, zombie, ptr, find, wakeup, reparent,
}

-- What the process table calls of the page allocator, the page tables and the file system. A null
-- pointer is 0; a copy that fails is `false`.
pub record Services (S : Type 0) : Type 0 where
  pub kalloc : S → ℕ × S
  pub kfree : ℕ → S → S
  pub proc_pagetable : ℕ → S → ℕ × S
  pub proc_freepagetable : ℕ → ℕ → S → S
  pub uvmcopy : ℕ → ℕ → ℕ → S → Bool × S
  pub uvmalloc : ℕ → ℕ → ℕ → S → ℕ × S
  pub uvmdealloc : ℕ → ℕ → ℕ → S → ℕ × S
  pub copyout : ℕ → ℕ → ℕ → S → Bool × S
  pub copy_trapframe : ℕ → ℕ → S → S
  pub filedup : ℕ → S → S
  pub fileclose : ℕ → S → S
  pub idup : ℕ → S → S
  pub iput : ℕ → S → S

pub record Kernel (S : Type 0) : Type 0 where
  pub proc : Table
  pub nextpid : ℕ
  pub initproc : ℕ
  pub rest : S

-- A process after freeproc.
abbrev pub cleared : Proc → Proc
cleared p = record p {
  trapframe = 0;
  pagetable = 0;
  sz = 0;
  pid = 0;
  parent = 0;
  name = [];
  chan = 0;
  killed = 0;
  xstate = 0;
  state = unused;
}

unfoldable pub freeproc : {S : Type 0} → Services S → ℕ → Kernel S → Kernel S
freeproc {S = S} sv i k =
    let p : Proc = k.proc i in
    let s1 : S = if p.trapframe == 0 then k.rest else sv.kfree p.trapframe k.rest in
    let s2 : S = if p.pagetable == 0 then s1 else sv.proc_freepagetable p.pagetable p.sz s1 in
    record k { proc = update k.proc i (cleared p); rest = s2 }

-- nextpid = nextpid + 1 on the bits of an int.
abbrev pub next_pid : ℕ → ℕ
next_pid n = (n + 1) % 2 ^ 32

unfoldable pub allocpid : {S : Type 0} → Kernel S → ℕ × Kernel S
allocpid k = (k.nextpid, record k { nextpid = next_pid k.nextpid })

-- allocproc once it has found the unused process `i`.
unfoldable pub alloc_at : {S : Type 0} → Services S → ℕ → Kernel S → Option ℕ × Kernel S
unfolding allocpid freeproc
alloc_at {S = S} sv i k =
    let (pid, k1) = allocpid k in
    let (frame, s2) = sv.kalloc k1.rest in
    let p2 : Proc = record (k1.proc i) { pid = pid; state = used; trapframe = frame } in
    let k2 : Kernel S = record k1 { proc = update k1.proc i p2; rest = s2 } in
    if frame == 0
    then (none, freeproc sv i k2)
    else let (pagetable, s3) = sv.proc_pagetable frame s2 in
      let p3 : Proc = record p2 { pagetable = pagetable } in
      let k3 : Kernel S = record k2 { proc = update k2.proc i p3; rest = s3 } in
      if pagetable == 0 then (none, freeproc sv i k3) else (some i, k3)

abbrev pub alloc_found : {S : Type 0} → Services S → Option ℕ → Kernel S → Option ℕ × Kernel S
alloc_found sv none k = (none, k)
alloc_found sv (some i) k = alloc_at sv i k

unfoldable pub allocproc : {S : Type 0} → Services S → Kernel S → Option ℕ × Kernel S
unfolding alloc_at
allocproc sv k = alloc_found sv (find (λ p. p.state == unused) k.proc nproc 0) k

-- for(i = 0; i < NOFILE; i++) if(p->ofile[i]) filedup(p->ofile[i]).
unfoldable pub dup_files : {S : Type 0} → Services S → List ℕ → S → S
dup_files sv [] s = s
dup_files sv (f ∷ l) s = dup_files sv l (if f == 0 then s else sv.filedup f s)

-- The open files of the child: `old` is what its place in the table holds. A file that is not in the
-- list of a process is 0.
unfoldable pub child_files : List ℕ → List ℕ → List ℕ
child_files [] old = old
child_files (f ∷ l) [] = f ∷ child_files l []
child_files (f ∷ l) (g ∷ old) = (if f == 0 then g else f) ∷ child_files l old

-- fork by `me` once allocproc has returned the process `i`.
unfoldable pub fork_into : {S : Type 0} → Services S → ℕ → ℕ → Kernel S → Option ℕ × Kernel S
unfolding freeproc dup_files child_files
fork_into {S = S} sv me i k =
    let p : Proc = k.proc me in
    let np : Proc = k.proc i in
    let (copied, s1) = sv.uvmcopy p.pagetable np.pagetable p.sz k.rest in
    let k1 : Kernel S = record k { rest = s1 } in
    if not copied
    then (none, freeproc sv i k1)
    else let s2 : S = sv.copy_trapframe p.trapframe np.trapframe s1 in
      let s3 : S = sv.idup p.cwd (dup_files sv p.ofile s2) in
      let child : Proc = record np {
        sz = p.sz;
        ofile = child_files p.ofile np.ofile;
        cwd = p.cwd;
        name = p.name;
        parent = ptr me;
        state = runnable;
      } in
      (some np.pid, record k1 { proc = update k1.proc i child; rest = s3 })

abbrev pub fork_found : {S : Type 0} → Services S → ℕ → Option ℕ → Kernel S → Option ℕ × Kernel S
fork_found sv me none k = (none, k)
fork_found sv me (some i) k = fork_into sv me i k

-- fork() by `me`; `none` is the -1 of the code.
unfoldable pub fork : {S : Type 0} → Services S → ℕ → Kernel S → Option ℕ × Kernel S
unfolding allocproc fork_into
fork sv me k = fork_found sv me (allocproc sv k).0 (allocproc sv k).1

-- growproc(n) by `me` for n > 0, and growproc(- n); the size a 64-bit word.
unfoldable pub grow : {S : Type 0} → Services S → ℕ → ℕ → Kernel S → Bool × Kernel S
grow sv me n k =
    let p : Proc = k.proc me in
    let (sz, s1) = sv.uvmalloc p.pagetable p.sz ((p.sz + n) % 2 ^ 64) k.rest in
    if sz == 0
    then (false, record k { rest = s1 })
    else (true, record k { proc = update k.proc me (record p { sz = sz }); rest = s1 })

unfoldable pub shrink : {S : Type 0} → Services S → ℕ → ℕ → Kernel S → Kernel S
shrink sv me n k =
    let p : Proc = k.proc me in
    let (sz, s1) = sv.uvmdealloc p.pagetable p.sz ((p.sz + 2 ^ 64 - n) % 2 ^ 64) k.rest in
    record k { proc = update k.proc me (record p { sz = sz }); rest = s1 }

unfoldable pub close_files : {S : Type 0} → Services S → List ℕ → S → S
close_files sv [] s = s
close_files sv (f ∷ l) s = close_files sv l (if f == 0 then s else sv.fileclose f s)

abbrev pub no_files : List ℕ → List ℕ
no_files [] = []
no_files (f ∷ l) = 0 ∷ no_files l

-- The table that exit(status) leaves to sched.
unfoldable pub exit_table : ℕ → ℕ → ℕ → Table → Table
unfolding reparent wakeup
exit_table initproc me status t0 =
    let t1 : Table = update t0 me (record (t0 me) { ofile = no_files (t0 me).ofile; cwd = 0 }) in
    let t2 : Table = reparent initproc me t1 in
    let t3 : Table = wakeup me (t2 me).parent t2 in
    update t3 me (record (t3 me) { xstate = status; state = zombie })

-- exit(status) by `me` up to its call of sched, which never returns.
unfoldable pub exit : {S : Type 0} → Services S → ℕ → ℕ → Kernel S → Result (Kernel S)
exit sv me status k = do
  panic_if (me == k.initproc) "init exiting"
  ok (record k {
    proc = exit_table k.initproc me status k.proc;
    rest = sv.iput (k.proc me).cwd (close_files sv (k.proc me).ofile k.rest);
  })

-- One scan of wait by `me`: the child that it reaps, an error, or sleep on `me`.
pub data Waited : Type 0 where
  reaped : ℕ → Waited
  error : Waited
  sleeps : Waited

-- wait(addr) once the scan has found the zombie child `i`.
unfoldable pub reap : {S : Type 0} → Services S → ℕ → ℕ → ℕ → Kernel S → Waited × Kernel S
unfolding freeproc
reap {S = S} sv me addr i k =
    let pp : Proc = k.proc i in
    let (copied, s1) =
      if addr == 0
      then (true, k.rest)
      else sv.copyout (k.proc me).pagetable addr pp.xstate k.rest in
    let k1 : Kernel S = record k { rest = s1 } in
    if not copied then (error, k1) else (reaped pp.pid, freeproc sv i k1)

abbrev pub is_zombie_child : ℕ → Proc → Bool
is_zombie_child me p = p.parent == ptr me && p.state == zombie

-- The end of a scan that has found no zombie child, with the first of the children.
abbrev pub no_zombie : Option ℕ → ℕ → Waited
no_zombie none killed = error
no_zombie (some i) killed = if killed == 0 then sleeps else error

abbrev pub wait_found : {S : Type 0} → Services S → ℕ → ℕ → Option ℕ → Kernel S → Waited × Kernel S
wait_found sv me addr (some i) k = reap sv me addr i k
wait_found sv me addr none k =
    (no_zombie (find (λ p. p.parent == ptr me) k.proc nproc 0) (k.proc me).killed, k)

unfoldable pub wait_scan : {S : Type 0} → Services S → ℕ → ℕ → Kernel S → Waited × Kernel S
unfolding reap
wait_scan sv me addr k = wait_found sv me addr (find (is_zombie_child me) k.proc nproc 0) k
