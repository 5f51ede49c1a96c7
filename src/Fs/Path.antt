-- ===== src/Fs/Path.antt =====
-- TDT4186 - OS/Labs/Lab3/kernel/fs.c: skipelem, the first name of a path.
use ntnu_courses.Base.{
  ℕ, zero, suc, ◌+◌, ◌-◌, ◌≤◌, ◌<◌, ◌≡◌, ◌≢◌, ◌⊎◌, refl, sym, ap, ◌∙◌, inl, inr, true, false, ◌&&◌,
  some, ltb, leb, ◌==◌, if◌then◌else◌, update_self, update_ne, dec_lt, ℕ_discrete, ==_ne, arith, ok,
}
use ntnu_courses.Str.{Mem, memmove}
use ntnu_courses.Str.Move.{memmove_lem}
use ntnu_courses.Fs.{dirsiz, slash, skip_slashes, skip_name, put_name, skipelem}

skip_slashes_lem :
    (a fuel p : ℕ) (m : Mem)
    → a < fuel
    → ((i : ℕ) → i < a → m (p + i) ≡ slash)
    → m (p + a) ≢ slash
    → skip_slashes fuel p m ≡ ok (p + a)
unfolding skip_slashes
skip_slashes_lem a zero p m f on off = absurd (omega (arith, f))
skip_slashes_lem zero (suc fuel) p m f on off =
    let here : m p ≢ slash = λ z. off (ap m (omega arith) ∙ z) in
    rw (==_ne (m p) slash here) (ap ok (omega arith))
skip_slashes_lem (suc a) (suc fuel) p m f on off =
    let here : m p ≡ slash = ap m (omega arith) ∙ on 0 (omega arith) in
    rw (ap (λ z. z == slash) here) (
      skip_slashes_lem a fuel (p + 1) m (omega (arith, f))
        (λ i lt. ap m (omega arith) ∙ on (suc i) (omega (arith, lt)))
        (λ z. off (ap m (omega arith) ∙ z))
      ∙ ap ok (omega arith))

-- A byte of a name.
abbrev pub IsNameByte : ℕ → Type 0
IsNameByte c = (c ≢ slash) × (c ≢ 0)

skip_name_lem :
    (n fuel p : ℕ) (m : Mem)
    → n < fuel
    → ((i : ℕ) → i < n → IsNameByte (m (p + i)))
    → (m (p + n) ≡ slash) ⊎ (m (p + n) ≡ 0)
    → skip_name fuel p m ≡ ok (p + n)
unfolding skip_name
skip_name_lem n zero p m f on off = absurd (omega (arith, f))
skip_name_lem zero (suc fuel) p m f on off =
    let same : p ≡ p + 0 = omega arith in
    elim off [
      | inl z ↦ rw (ap (λ x. x == slash) (ap m same ∙ z)) (ap ok same)
      | inr z ↦
          rw (ap (λ x. x == slash) (ap m same ∙ z), ap (λ x. x == 0) (ap m same ∙ z)) (ap ok same)
    ]
skip_name_lem (suc n) (suc fuel) p m f on off =
    let (no_slash, no_null) = on 0 (omega arith) in
    let same : p + 0 ≡ p = omega arith in
    rw
      (
        ==_ne (m p) slash (λ z. no_slash (ap m same ∙ z)),
        ==_ne (m p) 0 (λ z. no_null (ap m same ∙ z)),
      )
      (skip_name_lem n fuel (p + 1) m (omega (arith, f))
          (λ i lt.
            let at : p + suc i ≡ p + 1 + i = omega arith in
            let (x, y) = on (suc i) (omega (arith, lt)) in
            (λ z. x (ap m at ∙ z), λ z. y (ap m at ∙ z)))
          (let at : p + 1 + n ≡ p + suc n = omega arith in
            elim off [ inl z ↦ inl (ap m at ∙ z) | inr z ↦ inr (ap m at ∙ z) ])
        ∙ ap ok (omega arith))

moved_in : (dst src n i : ℕ) (m : Mem) → i < n → memmove m dst src n (dst + i) ≡ m (src + i)
moved_in dst src n i m lt =
    memmove_lem m dst src n (dst + i)
    ∙ inside (m (src + (dst + i - dst))) (m (dst + i))
    ∙ ap m (omega arith)
  where
    inside : (x y : ℕ) → (if leb dst (dst + i) && ltb (dst + i) (dst + n) then x else y) ≡ x
    inside x y = ground (arith, lt)

moved_out : (dst src n x : ℕ) (m : Mem) → (x < dst) ⊎ (dst + n ≤ x) → memmove m dst src n x ≡ m x
moved_out dst src n x m out = memmove_lem m dst src n x ∙ outside (m (src + (x - dst))) (m x) out
  where
    outside :
        (y z : ℕ) → (x < dst) ⊎ (dst + n ≤ x) → (if leb dst x && ltb x (dst + n) then y else z) ≡ z
    outside y z (inl lo) = ground (arith, lo)
    outside y z (inr hi) = ground (arith, hi)

leb_no : (n : ℕ) → n < dirsiz → leb dirsiz n ≡ false
leb_no n lt = ground (arith, lt)

leb_yes : (n : ℕ) → dirsiz ≤ n → leb dirsiz n ≡ true
leb_yes n le = ground (arith, le)

-- What the buffer for the name holds: at most DIRSIZ bytes, and a null behind a shorter name.
abbrev pub HoldsName : ℕ → ℕ → ℕ → Mem → Mem → Type 0
HoldsName name s n m m' =
    ((i : ℕ) → i < n → i < dirsiz → m' (name + i) ≡ m (s + i))
    × (n < dirsiz → m' (name + n) ≡ 0)
    × ((x : ℕ) → (x < name) ⊎ (name + dirsiz ≤ x) → m' x ≡ m x)

put_name_lem : (name s n : ℕ) (m : Mem) → HoldsName name s n m (put_name name s n m)
put_name_lem name s n m = elim (dec_lt n dirsiz) [
  | yes small ↦
      let cut : ℕ → ℕ = memmove m name s n in
      (
        (λ i lt l. rw (leb_no n small) (
            update_ne cut (name + n) (name + i) 0 (λ z. omega (arith, z, lt))
            ∙ moved_in name s n i m lt)),
        (λ l. rw (leb_no n small) (update_self cut (name + n) 0)),
        (λ x out. rw (leb_no n small) (
            update_ne cut (name + n) x 0 (λ z. elim out [
              | inl lo ↦ omega (arith, lo, z)
              | inr hi ↦ omega (arith, hi, z, small)
            ])
            ∙ moved_out name s n x m
                (elim out [ inl lo ↦ inl lo | inr hi ↦ inr (omega (arith, hi, small)) ]))),
      )
  | no large ↦
      let big : dirsiz ≤ n = omega (arith, large) in
      (
        (λ i lt l. rw (leb_yes n big) (moved_in name s dirsiz i m l)),
        (λ l. absurd (large l)),
        (λ x out. rw (leb_yes n big) (moved_out name s dirsiz x m out)),
      )
]

skipelem_run :
    (fuel p s e q name : ℕ) (m : Mem)
    → skip_slashes fuel p m ≡ ok s
    → m s ≢ 0
    → skip_name fuel s m ≡ ok e
    → skip_slashes fuel e (put_name name s (e - s) m) ≡ ok q
    → skipelem fuel p name m ≡ ok (some q, put_name name s (e - s) m)
unfolding skipelem
skipelem_run fuel p s e q name m a ne b c = rw (a, ==_ne (m s) 0 ne, b, c) refl

-- Of a path of `a` slashes, a name of `n` > 0 bytes, `b` slashes and then another byte, skipelem
-- returns the address of that byte, and the buffer (which lies apart from the path) holds the name,
-- cut to DIRSIZ bytes or ended by a null, and nothing else has changed. Fuel for the longest of the
-- three runs is enough.
pub skipelem_lem :
    (fuel p name a n b : ℕ) (m : Mem)
    → a < fuel
    → n < fuel
    → b < fuel
    → 0 < n
    → ((i : ℕ) → i < a → m (p + i) ≡ slash)
    → ((i : ℕ) → i < n → IsNameByte (m (p + a + i)))
    → ((i : ℕ) → i < b → m (p + a + n + i) ≡ slash)
    → m (p + a + n + b) ≢ slash
    → (b ≡ 0 → m (p + a + n) ≡ 0)
    → (p + a + n + b < name) ⊎ (name + dirsiz ≤ p)
    → (m' : Mem) × (skipelem fuel p name m ≡ ok (some (p + a + n + b), m'))
      × HoldsName name (p + a) n m m'
skipelem_lem fuel p name a n b m fa fn fb pos slashes bytes more stop last apart =
    let m' : Mem = put_name name (p + a) n m in
    let h = put_name_lem name (p + a) n m in
    let len : p + a + n - (p + a) ≡ n = omega arith in
    let (first, no_null) = bytes 0 pos in
    let at : p + a + 0 ≡ p + a = omega arith in
    let at_end : m (p + a + n) ≡ m (p + a + n + 0) = ap m (omega arith) in
    let kept : (i : ℕ) → i ≤ b → m' (p + a + n + i) ≡ m (p + a + n + i) = λ i le.
      h.2 (p + a + n + i)
        (elim apart [ inl lo ↦ inl (omega (arith, lo, le)) | inr hi ↦ inr (omega (arith, hi)) ]) in
    (
      m',
      skipelem_run fuel p (p + a) (p + a + n) (p + a + n + b) name m
            (skip_slashes_lem a fuel p m fa slashes (λ z. first (ap m at ∙ z)))
            (λ z. no_null (ap m at ∙ z))
            (skip_name_lem n fuel (p + a) m fn bytes (elim (ℕ_discrete b 0) [
              | yes z ↦ inr (last z)
              | no some_slash ↦ inl (at_end ∙ more 0 (omega (arith, some_slash)))
            ]))
            (ap (λ k. skip_slashes fuel (p + a + n) (put_name name (p + a) k m)) len
              ∙ skip_slashes_lem b fuel (p + a + n) m' fb
                  (λ i lt. kept i (omega (arith, lt)) ∙ more i lt)
                  (λ z. stop (sym (kept b (omega arith)) ∙ z)))
          ∙ ap (λ k. ok (some (p + a + n + b), put_name name (p + a) k m)) len,
      h,
    )
