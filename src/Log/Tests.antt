-- ===== src/Log/Tests.antt =====
-- A log of thirty blocks from block 2 on, and a transaction of the blocks 40 and 41.
use ntnu_courses.Base.{
  ℕ, ◌<◌, ◌≡◌, ◌⊎◌, refl, sym, ◌∙◌, update_ne, inl, inr, [], ◌∷◌, update, ok, panic, arith,
}
use ntnu_courses.Log.{
  Block, Store, Log, read_words, read_head, write_head, commit, begin_op, log_write, initlog,
}
use ntnu_courses.Log.Header.{decode, read_head-write_head}
use ntnu_courses.Log.Commit.{Outside}
use ntnu_courses.Log.Crash.{recovered, Pending}
use ntnu_courses.Log.Atomic.{commit_durable, commit_atomic}
use ntnu_courses.Log.Space.{
  System, begin, Reach, here, next, boot, log_write_fits, log_write_overflow,
}

abbrev blank : ℕ → Block
blank b i = 0

abbrev pending : Store
pending = record {
  disk = blank;
  cache = update (update blank 40 (λ i. 7)) 41 (λ i. 8);
  pins = λ b. 0;
  writes = [];
}

pending-Pending : Pending 2 30 (40 ∷ 41 ∷ []) pending
unfolding read_words
pending-Pending = record {
  outside = (omega arith, (omega arith, tt));
  fits = omega arith;
  empty = refl;
  clean = λ x out n. sym (
      update_ne (update blank 40 (λ i. 7)) 41 x (λ i. 8) (λ e. n (inr (inl (sym e))))
      ∙ update_ne blank 40 x (λ i. 7) (λ e. n (inl (sym e))));
}

read_head-write_head_example : read_head 2 (write_head 2 (40 ∷ 41 ∷ []) pending) ≡ 40 ∷ 41 ∷ []
read_head-write_head_example = read_head-write_head 2 (40 ∷ 41 ∷ []) pending

commit_durable_example :
    ((x : ℕ) → Outside 2 30 x → (commit 2 (40 ∷ 41 ∷ []) pending).disk x ≡ pending.cache x)
    × (decode ((commit 2 (40 ∷ 41 ∷ []) pending).disk 2) ≡ [])
commit_durable_example = commit_durable 2 30 40 (41 ∷ []) pending pending-Pending

-- The crash falls in front of the first write.
commit_atomic_example :
    ((x : ℕ) → Outside 2 30 x → recovered 2 blank x ≡ pending.disk x)
    ⊎ ((x : ℕ) → Outside 2 30 x → recovered 2 blank x ≡ pending.cache x)
commit_atomic_example =
    commit_atomic 2 30 40 (41 ∷ []) pending pending-Pending []
      (commit 2 (40 ∷ 41 ∷ []) pending).writes refl refl

abbrev opened : ℕ → System
opened size = record (boot 2 size blank) {
  log = record (boot 2 size blank).log { outstanding = 1 };
  room = 10;
}

one_open : (size : ℕ) → Reach (boot 2 size blank) (opened size)
unfolding boot initlog begin_op
one_open size = next here (begin refl)

big : 30 < (opened 31).log.size
unfolding boot initlog
big = omega arith

room : 0 < (opened 31).room
room = omega arith

log_write_fits_example :
    (log : Log) × (store : Store) × (log_write 40 (opened 31).log (opened 31).store
      ≡ ok (log, store))
log_write_fits_example = log_write_fits 2 31 blank 40 (one_open 31) room big

log_write_overflow_example :
    (s : System) × Reach (boot 2 30 blank) s
    × (s.room ≡ 1)
    × ((b : ℕ) → log_write b s.log s.store ≡ panic "too big a transaction")
log_write_overflow_example = log_write_overflow 2 blank
