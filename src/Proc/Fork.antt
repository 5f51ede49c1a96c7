-- ===== src/Proc/Fork.antt =====
-- TDT4186 - OS/Labs/Lab3/kernel/proc.c: what allocproc and fork do to the table.
use ntnu_courses.Base.{
  ℕ, zero, suc, ◌+◌, ◌^◌, ◌⊎◌, List, [], ◌∷◌, get_or, if◌then◌else◌, ◌≤◌, ◌<◌, ◌≡◌, ◌≢◌, refl, sym,
  ap, update, update_self, ◌∙◌, inl, inr, Bool, Option, none, some, ◌==◌, ℕ_discrete, Bool-cases,
  arith,
}
use ntnu_courses.Proc.{Proc, Table, nproc, unused, used, runnable, ptr, find}
use ntnu_courses.Proc.Scan.{find-some}
use ntnu_courses.Proc.Life.{
  Services, Kernel, freeproc, next_pid, allocpid, child_files, alloc_at, alloc_found, allocproc,
  fork_into, fork_found, fork,
}
use ntnu_courses.Proc.Inv.{IsValid}

-- allocproc at the unused process `i`: it fails and the process is unused again, or the process has
-- the next pid. A pid is used up in both cases, and nothing else changes.
pub data Allocated {S : Type 0} (k : Kernel S) (i : ℕ) : Option ℕ × Kernel S → Type 0 where
  failed :
      {k' : Kernel S}
      → (k'.proc i).state ≡ unused
      → ((q : ℕ) → q ≢ i → k'.proc q ≡ k.proc q)
      → k'.nextpid ≡ next_pid k.nextpid
      → Allocated k i (none, k')
  got :
      {k' : Kernel S}
      → (k'.proc i).pid ≡ k.nextpid
      → (k'.proc i).state ≡ used
      → (k'.proc i).killed ≡ (k.proc i).killed
      → (k'.proc i).ofile ≡ (k.proc i).ofile
      → ((q : ℕ) → q ≢ i → k'.proc q ≡ k.proc q)
      → k'.nextpid ≡ next_pid k.nextpid
      → Allocated k i (some i, k')

pub alloc_at_lem :
    {S : Type 0} (sv : Services S) (i : ℕ) (k : Kernel S) → Allocated k i (alloc_at sv i k)
unfolding alloc_at freeproc allocpid
alloc_at_lem sv i k = elim (Bool-cases ((sv.kalloc k.rest).0 == 0)) [
  | inl none_left ↦ rw none_left (failed (ground arith) (λ q ne. ground arith) refl)
  | inr frame ↦
      rw frame
        (elim (Bool-cases ((sv.proc_pagetable (sv.kalloc k.rest).0 (sv.kalloc k.rest).1).0 == 0)) [
          | inl none_left ↦ rw none_left (failed (ground arith) (λ q ne. ground arith) refl)
          | inr table ↦ rw table (
              got (ground arith) (ground arith) (ground arith) (ground arith) (λ q ne. ground arith)
                refl)
        ])
]

-- What fork by `me` does to a table: it fails and every process that was in use is as before, or an
-- unused process becomes the runnable child of the caller, with the next pid and the caller's size,
-- files, directory and name, and no other process changes. At a descriptor that the caller does not
-- use the child has what its place in the table held before.
pub data Forked {S : Type 0} (me : ℕ) (k : Kernel S) : Option ℕ × Kernel S → Type 0 where
  failed :
      {k' : Kernel S}
      → ((q : ℕ) → q < nproc → (k.proc q).state ≢ unused → k'.proc q ≡ k.proc q)
      → ((q : ℕ) → (k.proc q).state ≡ unused → (k'.proc q).state ≡ unused)
      → (k'.nextpid ≡ k.nextpid) ⊎ (k'.nextpid ≡ next_pid k.nextpid)
      → Forked me k (none, k')
  child :
      {pid : ℕ} {k' : Kernel S} (i : ℕ)
      → i < nproc
      → (k.proc i).state ≡ unused
      → ((q : ℕ) → q < i → (k.proc q).state ≢ unused)
      → pid ≡ k.nextpid
      → (k'.proc i).pid ≡ pid
      → (k'.proc i).state ≡ runnable
      → (k'.proc i).parent ≡ ptr me
      → (k'.proc i).killed ≡ (k.proc i).killed
      → (k'.proc i).sz ≡ (k.proc me).sz
      → ((fd : ℕ)
          → get_or (k'.proc i).ofile fd 0 ≡ (
              if get_or (k.proc me).ofile fd 0 == 0
              then get_or (k.proc i).ofile fd 0
              else get_or (k.proc me).ofile fd 0))
      → (k'.proc i).cwd ≡ (k.proc me).cwd
      → (k'.proc i).name ≡ (k.proc me).name
      → ((q : ℕ) → q ≢ i → k'.proc q ≡ k.proc q)
      → k'.nextpid ≡ next_pid k.nextpid
      → Forked me k (some pid, k')

abbrev free : Proc → Bool
free p = p.state == unused

get_or-child_files :
    (l old : List ℕ) (fd : ℕ)
    → get_or (child_files l old) fd 0
      ≡ (if get_or l fd 0 == 0 then get_or old fd 0 else get_or l fd 0)
unfolding child_files
get_or-child_files [] old fd = refl
get_or-child_files (f ∷ l) [] zero = ground arith
get_or-child_files (f ∷ l) [] (suc fd) = get_or-child_files l [] fd
get_or-child_files (f ∷ l) (g ∷ old) zero = refl
get_or-child_files (f ∷ l) (g ∷ old) (suc fd) = get_or-child_files l old fd

-- The files of a child that was put in its place, when allocproc has left the caller and the files as
-- they were.
opened :
    (t t' : Table) (me i : ℕ) (np : Proc)
    → t' me ≡ t me
    → (t' i).ofile ≡ (t i).ofile
    → np.ofile ≡ child_files (t' me).ofile (t' i).ofile
    → (fd : ℕ)
    → get_or (update t' i np i).ofile fd 0 ≡ (
        if get_or (t me).ofile fd 0 == 0 then get_or (t i).ofile fd 0 else get_or (t me).ofile fd 0)
opened t t' me i np same files e fd =
    ap (λ p. get_or p.ofile fd 0) (update_self t' i np)
    ∙ ap (λ l. get_or l fd 0) e
    ∙ get_or-child_files (t' me).ofile (t' i).ofile fd
    ∙ rw (same, files) refl

-- fork once allocproc has found the unused process `i`, and what it has made of it.
fork_at :
    {S : Type 0} (sv : Services S) (me i : ℕ) (k : Kernel S) (r : Option ℕ × Kernel S)
    → Allocated k i r
    → (k.proc me).state ≢ unused
    → i < nproc
    → (k.proc i).state ≡ unused
    → ((q : ℕ) → q < i → (k.proc q).state ≢ unused)
    → Forked me k (fork_found sv me r.0 r.1)
unfolding fork_into freeproc
fork_at sv me i k (none, k') (failed gone others n) live lt here before =
    failed (λ q lq u. ground (arith, others q)) (λ q u. ground (arith, others q)) (inr n)
fork_at sv me i k (some j, k') (got pid st killed files others n) live lt here before =
    elim (Bool-cases
      (sv.uvmcopy (k'.proc me).pagetable (k'.proc i).pagetable (k'.proc me).sz k'.rest).0) [
        | inr broken ↦
            rw broken (
              failed (λ q lq u. ground (arith, others q)) (λ q u. ground (arith, others q)) (inr n))
        | inl copied ↦ rw copied (
            child i lt here before pid (ground arith) (ground arith) (ground arith)
              (ground (arith, killed)) (ground (arith, others me))
              (opened k.proc k'.proc me i _
                (others me (λ z. live (ap (λ q. (k.proc q).state) z ∙ here))) files refl)
              (ground (arith, others me)) (ground (arith, others me))
              (λ q ne. ground (arith, others q)) n)
      ]

-- fork by a process in use, whatever the allocator and the page tables answer, fails and leaves every
-- process in use as it was, or makes the first unused process a runnable child of the caller: it
-- has the next pid, which fork returns, and the caller's size, directory, name and open files, and no
-- other process changes. At a descriptor that the caller does not use the child has what its place in
-- the table held before. nextpid is advanced as an int, with its wrap.
pub fork_lem :
    {S : Type 0} (sv : Services S) (me : ℕ) (k : Kernel S)
    → (k.proc me).state ≢ unused
    → Forked me k (fork sv me k)
unfolding fork allocproc
fork_lem {S = S} sv me k live = found (find free k.proc nproc 0) refl
  where
    found :
        (o : Option ℕ)
        → find free k.proc nproc 0 ≡ o
        → Forked me k (fork_found sv me (alloc_found sv o k).0 (alloc_found sv o k).1)
    found none e = failed (λ q lt u. refl) (λ q u. u) (inl refl)
    found (some i) e =
        let (h, lo, hi, before) = find-some free k.proc nproc 0 i e in
        fork_at sv me i k (alloc_at sv i k) (alloc_at_lem sv i k) live hi (ground (arith, h))
          (λ q lt. ground (arith, before q (omega arith) lt))

Forked-IsValid :
    {S : Type 0} (me : ℕ) (k : Kernel S) (r : Option ℕ × Kernel S)
    → Forked me k r
    → 0 < k.nextpid
    → k.nextpid + 1 < 2 ^ 31
    → IsValid k.proc k.nextpid
    → IsValid r.1.proc r.1.nextpid
Forked-IsValid me k (none, k') (failed same gone n) pos room v = record {
  positive = λ q lt u. ground (arith, same q lt, gone q, v.positive q lt);
  below = λ q lt u. ground (arith, same q lt, gone q, v.below q lt);
  distinct = λ p q lp lq up uq e.
      ground (arith, same p lp, same q lq, gone p, gone q, v.distinct p q lp lq);
}
Forked-IsValid me k (some pid, k') (child i lt un fst new np st pa ki sz fi cw na others n) pos room
      v =
    record {
      positive = λ q lq u. elim (ℕ_discrete q i) [
        | yes here ↦ ground (arith, here)
        | no ne ↦ ground (arith, others q ne, v.positive q lq)
      ];
      below = λ q lq u. elim (ℕ_discrete q i) [
        | yes here ↦ ground (arith, here)
        | no ne ↦ ground (arith, others q ne, v.below q lq)
      ];
      distinct = λ p q lp lq up uq e. elim (ℕ_discrete p i) [
        | yes p_new ↦ elim (ℕ_discrete q i) [
          | yes q_new ↦ p_new ∙ sym q_new
          | no ne ↦ ground (arith, p_new, others q ne, v.below q lq)
        ]
        | no off ↦ elim (ℕ_discrete q i) [
          | yes q_new ↦ ground (arith, q_new, others p off, v.below p lp)
          | no ne ↦
              v.distinct p q lp lq (ground (arith, others p off)) (ground (arith, others q ne))
                (ground (arith, others p off, others q ne))
        ]
      ];
    }

-- fork by a process in use keeps the pids of the processes in use positive, below nextpid and
-- different from each other, as long as nextpid does not overflow.
pub fork-IsValid :
    {S : Type 0} (sv : Services S) (me : ℕ) (k : Kernel S)
    → (k.proc me).state ≢ unused
    → 0 < k.nextpid
    → k.nextpid + 1 < 2 ^ 31
    → IsValid k.proc k.nextpid
    → IsValid (fork sv me k).1.proc (fork sv me k).1.nextpid
fork-IsValid sv me k live pos room v =
    Forked-IsValid me k (fork sv me k) (fork_lem sv me k live) pos room v

Forked-nextpid :
    {S : Type 0} (me : ℕ) (k : Kernel S) (r : Option ℕ × Kernel S)
    → Forked me k r
    → k.nextpid + 1 < 2 ^ 31
    → (k.nextpid ≤ r.1.nextpid) × (r.1.nextpid ≤ k.nextpid + 1)
Forked-nextpid me k (none, k') (failed same gone (inl n)) room = omega (arith, n)
Forked-nextpid me k (none, k') (failed same gone (inr n)) room = omega (arith, n)
Forked-nextpid me k (some pid, k') (child i lt un fst new np st pa ki sz fi cw na others n) room =
    omega arith

pub fork-nextpid :
    {S : Type 0} (sv : Services S) (me : ℕ) (k : Kernel S)
    → (k.proc me).state ≢ unused
    → k.nextpid + 1 < 2 ^ 31
    → (k.nextpid ≤ (fork sv me k).1.nextpid) × ((fork sv me k).1.nextpid ≤ k.nextpid + 1)
fork-nextpid sv me k live room = Forked-nextpid me k (fork sv me k) (fork_lem sv me k live) room
