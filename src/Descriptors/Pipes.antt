-- ===== src/Descriptors/Pipes.antt =====
-- TDT4186 - OS/Labs/Lab3/kernel/sysfile.c: sys_pipe leaves no descriptor and no file behind when it fails.
use ntnu_courses.Base.{
  ℕ, ◌-◌, ◌<◌, ◌≡◌, ◌≢◌, ◌⊎◌, refl, sym, ap, ◌∙◌, inl, inr, Bool, true, Option, none, some, update,
  update_self, update_ne, ℕ_discrete, arith, Bool-cases, ltb-eq-false, ok, List, [], ◌∷◌,
}
use ntnu_courses.File.{Ftable, Closing, closing, fd_none, fileclose}
use ntnu_courses.Descriptors.{
  Files, nofile, set_ofile, argfd, close_failed, pipe_copied, pipe_second, pipe_first, sys_pipe,
}
use ntnu_courses.Descriptors.Dup.{some_ne-none, fdalloc-Takes}

-- A file that was closed for the last time.
abbrev pub closed : ℕ → Ftable → Ftable
closed f t = update t f (record (t f) { ref = 0; kind = fd_none })

last_close :
    (f : ℕ) (t : Ftable) → (t f).ref ≡ 1 → fileclose f t ≡ ok (closing (t f).kind (t f), closed f t)
unfolding fileclose
last_close f t one =
    rw
      (
        ltb-eq-false (t f).ref 1 (omega (arith, one)),
        ltb-eq-false 0 ((t f).ref - 1) (omega (arith, one)),
      )
      refl

-- The two files of the pipe are closed.
abbrev pub BothClosed : ℕ → ℕ → Ftable → Ftable → List Closing → Type 0
BothClosed rf wf t t' calls =
    (calls ≡ closing (t rf).kind (t rf) ∷ closing (t wf).kind (t wf) ∷ [])
    × ((t' rf).ref ≡ 0)
    × ((t' wf).ref ≡ 0)
    × ((f : ℕ) → f ≢ rf → f ≢ wf → t' f ≡ t f)

close_both_lem :
    (rf wf : ℕ) (s : Files)
    → rf ≢ wf
    → (s.table rf).ref ≡ 1
    → (s.table wf).ref ≡ 1
    → (calls : List Closing) × (t' : Ftable) × (close_failed rf wf s
        ≡ ok (none, calls, record s { table = t' }))
      × BothClosed rf wf s.table t' calls
close_both_lem rf wf s apart one two =
    let t1 : Ftable = closed rf s.table in
    let same : t1 wf ≡ s.table wf =
      update_ne s.table rf wf (record (s.table rf) { ref = 0; kind = fd_none }) apart in
    let first = last_close rf s.table one in
    let second = last_close wf t1 (ap (λ x. x.ref) same ∙ two) in
    (
      closing (s.table rf).kind (s.table rf) ∷ closing (t1 wf).kind (t1 wf) ∷ [],
      closed wf t1,
      rw (first, second) refl,
      (
        ap (λ x. closing (s.table rf).kind (s.table rf) ∷ closing x.kind x ∷ []) same,
        ap (λ x. x.ref)
            (update_ne t1 wf rf (record (t1 wf) { ref = 0; kind = fd_none }) (λ z. apart (sym z))
              ∙ update_self s.table rf (record (s.table rf) { ref = 0; kind = fd_none })),
        ap (λ x. x.ref) (update_self t1 wf (record (t1 wf) { ref = 0; kind = fd_none })),
        λ f n1 n2.
            update_ne t1 wf f (record (t1 wf) { ref = 0; kind = fd_none }) (λ z. n2 (sym z))
            ∙ update_ne s.table rf f (record (s.table rf) { ref = 0; kind = fd_none })
                (λ z. n1 (sym z)),
      ),
    )

argfd_in : (fd : ℕ) (s : Files) → fd < nofile → argfd fd s ≡ s.ofile fd
argfd_in fd s lt = ground (arith, lt)

undo_one :
    (o : ℕ → Option ℕ) (a p : ℕ) (v : Option ℕ) → o a ≡ none → update (update o a v) a none p ≡ o p
undo_one o a p v free = elim (ℕ_discrete a p) [
  | yes e ↦
      ap (update (update o a v) a none) (sym e)
      ∙ update_self (update o a v) a none
      ∙ sym free
      ∙ ap o e
  | no ne ↦ update_ne (update o a v) a p none ne ∙ update_ne o a p v ne
]

undo_two :
    (o : ℕ → Option ℕ) (a b p : ℕ) (v w : Option ℕ)
    → o a ≡ none
    → o b ≡ none
    → a ≢ b
    → update (update (update (update o a v) b w) a none) b none p ≡ o p
undo_two o a b p v w fa fb ne = elim (ℕ_discrete b p) [
  | yes e ↦
      ap (update (update (update (update o a v) b w) a none) b none) (sym e)
      ∙ update_self (update (update (update o a v) b w) a none) b none
      ∙ sym fb
      ∙ ap o e
  | no nb ↦
      update_ne (update (update (update o a v) b w) a none) b p none nb ∙ elim (ℕ_discrete a p) [
        | yes e ↦
            ap (update (update (update o a v) b w) a none) (sym e)
            ∙ update_self (update (update o a v) b w) a none
            ∙ sym fa
            ∙ ap o e
        | no na ↦
            update_ne (update (update o a v) b w) a p none na
            ∙ update_ne (update o a v) b p w nb
            ∙ update_ne o a p v na
      ]
]

-- sys_pipe with two fresh files either puts them at two different free descriptors, changes no other and
-- returns these, or returns -1 with every descriptor as it was and both files closed for the last time;
-- it succeeds only if both calls of copyout do.
pub sys_pipe_lem :
    (copied : Bool) (rf wf : ℕ) (s : Files)
    → rf ≢ wf
    → (s.table rf).ref ≡ 1
    → (s.table wf).ref ≡ 1
    → ((fd0 : ℕ) × (fd1 : ℕ) × (s' : Files) × (sys_pipe copied rf wf s
          ≡ ok (some (fd0, fd1), [], s'))
        × (copied ≡ true)
        × (fd0 ≢ fd1)
        × (s.ofile fd0 ≡ none)
        × (s.ofile fd1 ≡ none)
        × (argfd fd0 s' ≡ some rf)
        × (argfd fd1 s' ≡ some wf)
        × ((p : ℕ) → p ≢ fd0 → p ≢ fd1 → s'.ofile p ≡ s.ofile p))
      ⊎ ((calls : List Closing) × (s' : Files) × (sys_pipe copied rf wf s ≡ ok (none, calls, s'))
          × ((p : ℕ) → s'.ofile p ≡ s.ofile p)
          × BothClosed rf wf s.table s'.table calls)
unfolding sys_pipe
sys_pipe_lem copied rf wf s apart one two = elim (fdalloc-Takes rf s) [
  | inl (e, all) ↦
      let (calls, t', run, b) = close_both_lem rf wf s apart one two in
      inr (calls, record s { table = t' }, ap (pipe_first copied rf wf) e ∙ run, (λ p. refl), b)
  | inr (fd0, e, lo, hi, free, least) ↦
      let s1 : Files = set_ofile fd0 (some rf) s in
      elim (fdalloc-Takes wf s1) [
        | inl (e', all) ↦
            let (calls, t', run, b) = close_both_lem rf wf (set_ofile fd0 none s1) apart one two in
            inr (
              calls,
              record (set_ofile fd0 none s1) { table = t' },
              ap (pipe_first copied rf wf) e ∙ ap (pipe_second copied rf wf fd0) e' ∙ run,
              (λ p. undo_one s.ofile fd0 p (some rf) free),
              b,
            )
        | inr (fd1, e', lo', hi', free', least') ↦
            let ne : fd0 ≢ fd1 = λ z.
              some_ne-none (s1.ofile fd1) rf
                (ap s1.ofile (sym z) ∙ update_self s.ofile fd0 (some rf)) free' in
            let free1 : s.ofile fd1 ≡ none = sym (update_ne s.ofile fd0 fd1 (some rf) ne) ∙ free' in
            let s2 : Files = set_ofile fd1 (some wf) s1 in
            let run : sys_pipe copied rf wf s ≡ pipe_copied copied rf wf fd0 fd1 s2 =
              ap (pipe_first copied rf wf) e ∙ ap (pipe_second copied rf wf fd0) e' in
            let at_fd0 : s2.ofile fd0 ≡ some rf =
              update_ne s1.ofile fd1 fd0 (some wf) (λ z. ne (sym z))
              ∙ update_self s.ofile fd0 (some rf) in
            elim (Bool-cases copied) [
              | inl c ↦ inl (
                fd0,
                fd1,
                s2,
                run ∙ ap (λ b. pipe_copied b rf wf fd0 fd1 s2) c,
                c,
                ne,
                free,
                free1,
                argfd_in fd0 s2 hi ∙ at_fd0,
                argfd_in fd1 s2 hi' ∙ update_self s1.ofile fd1 (some wf),
                λ p n1 n2.
                    update_ne s1.ofile fd1 p (some wf) (λ z. n2 (sym z))
                    ∙ update_ne s.ofile fd0 p (some rf) (λ z. n1 (sym z)),
              )
              | inr c ↦
                  let (calls, t', closes, b) =
                    close_both_lem rf wf (set_ofile fd1 none (set_ofile fd0 none s2)) apart one
                      two in
                  inr (
                    calls,
                    record (set_ofile fd1 none (set_ofile fd0 none s2)) { table = t' },
                    run ∙ ap (λ b. pipe_copied b rf wf fd0 fd1 s2) c ∙ closes,
                    (λ p. undo_two s.ofile fd0 fd1 p (some rf) (some wf) free free1 ne),
                    b,
                  )
            ]
      ]
]
