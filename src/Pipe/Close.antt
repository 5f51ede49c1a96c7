-- ===== src/Pipe/Close.antt =====
-- Whole histories of a pipe: first in, first out, and the end of its life.
use ntnu_courses.Base.{
  ℕ, zero, suc, ◌+◌, ◌≤◌, ◌<◌, ℕ_discrete, ◌≡◌, ◌↔◌, refl, ◌∙◌, sym, ap, subst, Bool, ◌&&◌, true,
  false, List, [], ◌∷◌, ◌++◌, append_assoc, append-nil, ◌==◌, if◌then◌else◌, Bool-cases, inl, inr,
  arith,
}
use ntnu_courses.Pipe.{
  Pipe, copy_out, pipewrite, piperead, pipeclose, fail, sleeps, returns, Call, write, read, close,
  run,
}
use ntnu_courses.Pipe.Fifo.{IsValid, contents}
use ntnu_courses.Pipe.Run.{pipewrite_lem, copy_out_lem, Copied}

-- `got` is `left` less `n` of its bytes.
pub data Loses : ℕ → List ℕ → List ℕ → Type 0 where
  none_left : Loses 0 [] []
  arrives : {n : ℕ} {left got : List ℕ} (x : ℕ) → Loses n left got → Loses n (x ∷ left) (x ∷ got)
  is_lost : {n : ℕ} {left got : List ℕ} (x : ℕ) → Loses n left got → Loses (suc n) (x ∷ left) got

-- copyout takes a byte at each of the first `n` addresses.
abbrev pub takes_all : (ℕ → Bool) → ℕ → Bool
takes_all user zero = true
takes_all user (suc n) = user n && takes_all user n

-- The reads of a history that have an address where copyout fails.
abbrev pub bad_reads : List Call → ℕ
bad_reads [] = 0
bad_reads (write killed user k i ∷ cs) = bad_reads cs
bad_reads (read killed user n ∷ cs) = if takes_all user n then bad_reads cs else suc (bad_reads cs)
bad_reads (close writable ∷ cs) = bad_reads cs

Loses-refl : (l : List ℕ) → Loses 0 l l
Loses-refl [] = none_left
Loses-refl (x ∷ l) = arrives x (Loses-refl l)

Loses-append :
    {n m : ℕ} {a b c d : List ℕ} → Loses n a b → Loses m c d → Loses (n + m) (a ++ c) (b ++ d)
Loses-append {m = m} {c = c} {d = d} none_left k =
    let e : m ≡ 0 + m = omega arith in subst (λ z. Loses z c d) e k
Loses-append (arrives x h) k = arrives x (Loses-append h k)
Loses-append {m = m} {b = b} {c = c} {d = d} (is_lost {n = n} {left = l} x h) k =
    let e : suc (n + m) ≡ suc n + m = omega arith in
    subst (λ z. Loses z (x ∷ l ++ c) (b ++ d)) e (is_lost x (Loses-append h k))

Loses-last : (bytes : List ℕ) (x : ℕ) → Loses 1 (bytes ++ x ∷ []) bytes
Loses-last [] x = is_lost x none_left
Loses-last (y ∷ bytes) x = arrives y (Loses-last bytes x)

takes_all-refused : (user : ℕ → Bool) (n c : ℕ) → c < n → user c ≡ false → takes_all user n ≡ false
takes_all-refused user zero c lt e = absurd (omega (arith, lt))
takes_all-refused user (suc n) c lt e = elim (ℕ_discrete c n) [
  | yes here ↦ rw (ap user (sym here) ∙ e) refl
  | no ne ↦ elim (Bool-cases (user n)) [
    | inl good ↦ rw good (takes_all-refused user n c (omega (arith, lt, ne)) e)
    | inr bad ↦ rw bad refl
  ]
]

-- What one stretch of piperead takes from the queue is what it hands out, and one byte more, which is
-- lost, only if copyout fails at one of its addresses.
record Took (pi : Pipe) (user : ℕ → Bool) (n : ℕ) (bytes : List ℕ) (pi' : Pipe) : Type 0 where
  valid : IsValid pi'
  left : List ℕ
  lost : ℕ
  order : contents pi ≡ left ++ contents pi'
  loses : Loses lost left bytes
  few : lost ≤ (if takes_all user n then 0 else 1)

Copied-Took :
    (user : ℕ → Bool) (n : ℕ) (pi : Pipe) (r : ℕ × List ℕ × Pipe)
    → Copied user n 0 pi r
    → Took pi user n r.1 r.2
Copied-Took user n pi r c = elim c.order [
  | inl (q, h) ↦ record {
    valid = c.valid;
    left = r.1;
    lost = 0;
    order = q;
    loses = Loses-refl r.1;
    few = omega arith;
  }
  | inr (x, q, bad, lt) ↦ record {
    valid = c.valid;
    left = r.1 ++ x ∷ [];
    lost = 1;
    order = q ∙ sym (append_assoc r.1 (x ∷ []) (contents r.2));
    loses = Loses-last r.1 x;
    few = rw (takes_all-refused user n r.0 (omega (arith, c.count, lt)) bad) (omega arith);
  }
]

piperead-Took :
    (killed : Bool) (user : ℕ → Bool) (n : ℕ) (pi : Pipe)
    → IsValid pi
    → Took pi user n (piperead killed user n pi).1 (piperead killed user n pi).2
unfolding piperead
piperead-Took killed user n pi v = elim (Bool-cases (pi.nread == pi.nwrite && pi.writeopen)) [
  | inl waits ↦ rw waits (record {
    valid = v;
    left = [];
    lost = 0;
    order = refl;
    loses = none_left;
    few = omega arith;
  })
  | inr goes ↦ rw goes (Copied-Took user n pi (copy_out user n 0 pi) (copy_out_lem user n 0 pi v))
]

pipeclose_keeps :
    (writable : Bool) (pi : Pipe)
    → (contents (pipeclose writable pi).1 ≡ contents pi)
      × (IsValid pi → IsValid (pipeclose writable pi).1)
unfolding pipeclose
pipeclose_keeps true pi = (refl, λ v. omega arith)
pipeclose_keeps false pi = (refl, λ v. omega arith)

fifo_put : (a s1 s2 b c : List ℕ) → b ≡ a ++ s1 → b ++ s2 ≡ c → a ++ (s1 ++ s2) ≡ c
fifo_put a s1 s2 b c e f = sym (append_assoc a s1 s2) ∙ rw (← e) f

fifo_get : (a b s g1 g2 c : List ℕ) → a ≡ g1 ++ b → b ++ s ≡ g2 ++ c → a ++ s ≡ (g1 ++ g2) ++ c
fifo_get a b s g1 g2 c e f =
    rw e (append_assoc g1 b s ∙ ap (λ l. g1 ++ l) f ∙ sym (append_assoc g1 g2 c))

-- First in, first out: over any sequence of stretches of writers, readers and closers, the bytes
-- that were in a valid pipe followed by those that went in are the bytes that left it followed by
-- those that are still there, in order, and the pipe stays valid. The bytes that came out at the
-- readers are those that left it, in order, less some that were lost: at most one for each read that
-- has an address where copyout fails, so that none is lost if copyout never fails.
pub run_fifo :
    (cs : List Call) (pi : Pipe)
    → IsValid pi
    → let (sent, got, pi') = run cs pi in
      (left : List ℕ) × (lost : ℕ) × (contents pi ++ sent ≡ left ++ contents pi')
      × Loses lost left got
      × (lost ≤ bad_reads cs)
      × IsValid pi'
unfolding run
run_fifo [] pi v = ([], 0, append-nil (contents pi), none_left, omega arith, v)
run_fifo (write killed user k i ∷ cs) pi v =
    let r = pipewrite killed user k i pi in
    let w = pipewrite_lem killed user k i pi v in
    let (left, lost, fifo, h, few, v') = run_fifo cs r.2 w.valid in
    (
      left,
      lost,
      fifo_put (contents pi) r.1 (run cs r.2).0 (contents r.2) _ w.grown fifo,
      h,
      few,
      v',
    )
run_fifo (read killed user n ∷ cs) pi v =
    let r = piperead killed user n pi in
    let t = piperead-Took killed user n pi v in
    let (left, lost, fifo, h, few, v') = run_fifo cs r.2 t.valid in
    (
      t.left ++ left,
      t.lost + lost,
      fifo_get (contents pi) (contents r.2) (run cs r.2).0 t.left left _ t.order fifo,
      Loses-append t.loses h,
      ground (arith, t.few, few),
      v',
    )
run_fifo (close writable ∷ cs) pi v =
    let (same, keep) = pipeclose_keeps writable pi in
    let (left, lost, fifo, h, few, v') = run_fifo cs (pipeclose writable pi).1 (keep v) in
    (left, lost, rw same at fifo, h, few, v')

-- A close of one end of a pipe frees its page exactly when the other end is closed already, leaves
-- the other end as it was, and never touches the bytes.
pub pipeclose_lem :
    (writable : Bool) (pi : Pipe)
    → let (freed, pi') = pipeclose writable pi in
      ((freed ≡ true) ↔ ((if writable then pi.readopen else pi.writeopen) ≡ false))
      × (pi'.readopen ≡ (if writable then pi.readopen else false))
      × (pi'.writeopen ≡ (if writable then false else pi.writeopen))
      × (contents pi' ≡ contents pi)
unfolding pipeclose
pipeclose_lem true pi = ((λ h. ground arith, λ h. ground arith), refl, refl, refl)
pipeclose_lem false pi = ((λ h. ground arith, λ h. ground arith), refl, refl, refl)

copy_out_empty :
    (user : ℕ → Bool) (n : ℕ) (pi : Pipe)
    → pi.nread ≡ pi.nwrite
    → copy_out user n 0 pi ≡ (0, [], pi)
unfolding copy_out
copy_out_empty user zero pi e = refl
copy_out_empty user (suc n) pi e = ground arith

-- A read of an empty pipe whose writers are gone ends at once with 0 bytes; with a writer left the
-- reader sleeps, unless it was killed.
pub piperead_empty :
    (killed : Bool) (user : ℕ → Bool) (n : ℕ) (pi : Pipe)
    → pi.nread ≡ pi.nwrite
    → piperead killed user n pi
      ≡ (if pi.writeopen then (if killed then fail else sleeps 0) else returns 0, [], pi)
unfolding piperead
piperead_empty killed user n pi e = ground (arith, copy_out_empty user n pi e)
