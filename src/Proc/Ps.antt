-- ===== src/Proc/Ps.antt =====
-- TDT4186 - OS/Labs/Lab3/kernel/proc.c: ps, the list of the processes for the user.
use ntnu_courses.Base.{
  ℕ, zero, suc, ◌+◌, ◌-◌, ◌*◌, ◌≤◌, ◌<◌, ◌≡◌, ◌≢◌, refl, ◌||◌, not, Option, none, some, List, [],
  ◌∷◌, length, leb, ◌==◌, if◌then◌else◌, get_elem?, inl, inr, Bool-cases, arith,
}
use ntnu_courses.Proc.{Proc, Table, nproc, unused}
use ntnu_courses.Proc.Life.{Services, Kernel, grow}

-- struct user_proc. For a process without a parent the code leaves parent_id as it finds it.
pub record UserProc : Type 0 where
  pub state : ℕ
  pub killed : ℕ
  pub xstate : ℕ
  pub pid : ℕ
  pub parent_id : Option ℕ
  pub name : List ℕ

abbrev pub user_proc_size : ℕ
user_proc_size = 36

abbrev pub user_proc : Table → Proc → UserProc
user_proc t p = record {
  state = p.state;
  killed = p.killed;
  xstate = p.xstate;
  pid = p.pid;
  parent_id = if p.parent == 0 then none else some (t (p.parent - 1)).pid;
  name = p.name;
}

-- The loop of ps over the `k` processes from `i` on, with room for `count` entries.
unfoldable pub ps_from : ℕ → ℕ → ℕ → Table → List UserProc
ps_from zero i count t = []
ps_from (suc k) i count t =
    let rest = ps_from k (i + 1) (count - 1) t in
    if count == 0 then [] else if (t i).state == unused then [] else user_proc t (t i) ∷ rest

-- ps(start, count) by `me`: the pointer that it returns and the entries that it fills; the entry behind
-- them, where there is one, has the state UNUSED.
unfoldable pub ps : {S : Type 0} → Services S → ℕ → ℕ → ℕ → Kernel S → ℕ × List UserProc × Kernel S
unfolding grow ps_from
ps sv me start count k =
    let grown = grow sv me (count * user_proc_size) k in
    if count == 0
    then (0, [], k)
    else if not grown.0 || leb nproc start
    then (0, [], grown.1)
    else ((k.proc me).sz, ps_from (nproc - start) start count grown.1.proc, grown.1)

ps_from-entry :
    (k i count : ℕ) (t : Table) (j : ℕ)
    → j < length (ps_from k i count t)
    → (get_elem? (ps_from k i count t) j ≡ some (user_proc t (t (i + j))))
      × ((t (i + j)).state ≢ unused)
unfolding ps_from
ps_from-entry zero i count t j lt = absurd (omega arith)
ps_from-entry (suc k) i count t j lt = elim (Bool-cases (count == 0)) [
  | inl full ↦ absurd (omega (arith, rw full at lt))
  | inr room ↦ elim (Bool-cases ((t i).state == unused)) [
    | inl gap ↦ absurd (omega (arith, rw (room, gap) at lt))
    | inr live ↦
        rw (room, live)
          (entry j (rw (room, live) at lt) (ground (arith, live))
            (λ n h. ps_from-entry k (i + 1) (count - 1) t n h))
  ]
]
  where
    rest : List UserProc
    rest = ps_from k (i + 1) (count - 1) t

    entry :
        (n : ℕ)
        → n < suc (length rest)
        → (t i).state ≢ unused
        → ((m : ℕ)
            → m < length rest
            → (get_elem? rest m ≡ some (user_proc t (t (i + 1 + m))))
              × ((t (i + 1 + m)).state ≢ unused))
        → (get_elem? (user_proc t (t i) ∷ rest) n ≡ some (user_proc t (t (i + n))))
          × ((t (i + n)).state ≢ unused)
    entry zero h u later = let e : i + 0 ≡ i = omega arith in rw e (refl, u)
    entry (suc n) h u later =
        let e : i + suc n ≡ i + 1 + n = omega arith in rw e (later n (omega arith))

ps_from-stop :
    (k i count : ℕ) (t : Table)
    → (length (ps_from k i count t) ≤ count)
      × (length (ps_from k i count t) ≤ k)
      × (length (ps_from k i count t) < count
          → length (ps_from k i count t) < k
          → (t (i + length (ps_from k i count t))).state ≡ unused)
unfolding ps_from
ps_from-stop zero i count t = (omega arith, omega arith, λ a b. absurd (omega arith))
ps_from-stop (suc k) i count t = elim (Bool-cases (count == 0)) [
  | inl full ↦ rw full (omega arith, omega arith, λ a b. ground (arith, full))
  | inr room ↦ elim (Bool-cases ((t i).state == unused)) [
    | inl gap ↦
        let e : i + 0 ≡ i = omega arith in
        rw (room, gap) (omega arith, omega arith, λ a b. rw e (ground (arith, gap)))
    | inr live ↦
        rw (room, live) (later (ground (arith, room)) (ps_from-stop k (i + 1) (count - 1) t))
  ]
]
  where
    n : ℕ
    n = length (ps_from k (i + 1) (count - 1) t)

    later :
        count ≢ 0
        → (n ≤ count - 1) × (n ≤ k) × (n < count - 1 → n < k → (t (i + 1 + n)).state ≡ unused)
        → (suc n ≤ count)
          × (suc n ≤ suc k)
          × (suc n < count → suc n < suc k → (t (i + suc n)).state ≡ unused)
    later ne (a, b, c) = (
      omega arith,
      omega arith,
      λ x y. let e : i + suc n ≡ i + 1 + n = omega arith in rw e (c (omega arith) (omega arith)),
    )

-- The entries of ps are those of the processes from `i` on: the j-th is that of the process i + j, none
-- is of an unused process, there are `count` at most, and fewer only at the end of the table or at
-- an unused process.
pub ps_from_lem :
    (k i count : ℕ) (t : Table)
    → ((j : ℕ)
        → j < length (ps_from k i count t)
        → (get_elem? (ps_from k i count t) j ≡ some (user_proc t (t (i + j))))
          × ((t (i + j)).state ≢ unused))
      × (length (ps_from k i count t) ≤ count)
      × (length (ps_from k i count t) ≤ k)
      × (length (ps_from k i count t) < count
          → length (ps_from k i count t) < k
          → (t (i + length (ps_from k i count t))).state ≡ unused)
ps_from_lem k i count t =
    let (a, b, c) = ps_from-stop k i count t in (ps_from-entry k i count t, a, b, c)
