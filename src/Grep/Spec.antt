-- ===== src/Grep/Spec.antt =====
-- TDT4186 - OS/Labs/Lab3/user/grep.c: the language of a pattern, and that the matcher decides it.
use ntnu_courses.Base.{
  ℕ, ◌≡◌, ◌≢◌, ◌↔◌, ◌⊎◌, inl, inr, refl, Bool, true, false, ◌||◌, List, [], ◌∷◌, ◌++◌, ◌==◌, ==_iff,
  ==_ne, ap, subst, Bool-cases, arith,
}
use ntnu_courses.Grep.{
  star, dot, dollar, caret, at_end, match_one, matchstar, matchhere, match_from, match_re,
}

-- The character `x` is one that `c` of a pattern stands for.
abbrev pub Fits : ℕ → ℕ → Type 0
Fits c x = (c ≡ dot) ⊎ (c ≡ x)

abbrev pub starts_star : List ℕ → Bool
starts_star [] = false
starts_star (d ∷ re) = d == star

-- The texts that begin with an instance of the pattern. `star_of` gives `c*` any number of
-- characters that `c` stands for.
pub data Here : List ℕ → List ℕ → Type 0 where
  nothing : (text : List ℕ) → Here [] text
  at_dollar : Here (dollar ∷ []) []
  one :
      (c x : ℕ) (re text : List ℕ)
      → starts_star re ≡ false
      → ¬ ((c ≡ dollar) × (re ≡ []))
      → Fits c x
      → Here re text
      → Here (c ∷ re) (x ∷ text)
  star_none : (c : ℕ) (re text : List ℕ) → Here re text → Here (c ∷ star ∷ re) text
  star_more :
      (c x : ℕ) (re text : List ℕ)
      → Fits c x
      → Here (c ∷ star ∷ re) text
      → Here (c ∷ star ∷ re) (x ∷ text)

matchstar_sound :
    (c : ℕ) (re text : List ℕ)
    → ((t : List ℕ) → matchhere re t ≡ true → Here re t)
    → matchstar c (matchhere re) text ≡ true
    → Here (c ∷ star ∷ re) text
unfolding matchstar
matchstar_sound c re [] sound e = star_none c re [] (sound [] e)
matchstar_sound c re (x ∷ text) sound e = elim (Bool-cases (matchhere re (x ∷ text))) [
  | inl now ↦ star_none c re (x ∷ text) (sound (x ∷ text) now)
  | inr later ↦ elim (Bool-cases (x == c || c == dot)) [
    | inl fits ↦
        star_more c x re text (ground (arith, fits))
          (matchstar_sound c re text sound (rw (later, fits) at e))
    | inr off ↦ absurd (cc (rw (later, off) at e))
  ]
]

match_one_sound :
    (c : ℕ) (re text : List ℕ)
    → starts_star re ≡ false
    → ¬ ((c ≡ dollar) × (re ≡ []))
    → ((t : List ℕ) → matchhere re t ≡ true → Here re t)
    → match_one c (matchhere re) text ≡ true
    → Here (c ∷ re) text
unfolding match_one
match_one_sound c re [] plain no_end sound e = absurd (cc)
match_one_sound c re (x ∷ text) plain no_end sound e = elim (Bool-cases (c == dot || c == x)) [
  | inl fits ↦ one c x re text plain no_end (ground (arith, fits)) (sound text (rw fits at e))
  | inr off ↦ absurd (cc (rw off at e))
]

at_end_sound : (text : List ℕ) → at_end text ≡ true → text ≡ []
at_end_sound [] e = refl
at_end_sound (x ∷ text) e = cc

matchhere_sound : (re text : List ℕ) → matchhere re text ≡ true → Here re text
unfolding matchhere
matchhere_sound [] text e = nothing text
matchhere_sound (c ∷ []) text e = elim (Bool-cases (c == dollar)) [
  | inl end ↦ rw ((==_iff c dollar).0 end, at_end_sound text (rw end at e)) at_dollar
  | inr off ↦ match_one_sound c [] text refl (λ h. ground arith) (λ t h. nothing t) (rw off at e)
]
matchhere_sound (c ∷ d ∷ re) text e = elim (Bool-cases (d == star)) [
  | inl starred ↦
      rw ((==_iff d star).0 starred)
        (matchstar_sound c re text (λ t h. matchhere_sound re t h) (rw starred at e))
  | inr plain ↦
      match_one_sound c (d ∷ re) text plain (λ h. cc) (λ t h. matchhere_sound (d ∷ re) t h)
        (rw plain at e)
]

matchstar-now :
    (c : ℕ) (m : List ℕ → Bool) (text : List ℕ) → m text ≡ true → matchstar c m text ≡ true
unfolding matchstar
matchstar-now c m [] e = e
matchstar-now c m (x ∷ text) e = rw e

matchstar-more :
    (c x : ℕ) (m : List ℕ → Bool) (text : List ℕ)
    → Fits c x
    → matchstar c m text ≡ true
    → matchstar c m (x ∷ text) ≡ true
unfolding matchstar
matchstar-more c x m text f e = ground (arith, f, e)

matchhere_complete : (re text : List ℕ) → Here re text → matchhere re text ≡ true
unfolding matchhere match_one
matchhere_complete [] text h = refl
matchhere_complete (c ∷ []) text at_dollar = refl
matchhere_complete (c ∷ []) text (one c' x re' t plain no_end fits h) = ground arith
matchhere_complete (c ∷ d ∷ re) text (one c' x re' t plain no_end fits h) =
    ground (arith, plain, matchhere_complete (d ∷ re) t h)
matchhere_complete (c ∷ d ∷ re) text (star_none c' re' text' h) =
    matchstar-now c (matchhere re) text (matchhere_complete re text h)
matchhere_complete (c ∷ d ∷ re) text (star_more c' x re' t fits h) =
    matchstar-more c x (matchhere re) t fits (matchhere_complete (c ∷ star ∷ re) t h)

-- matchhere says whether the text begins with an instance of the pattern.
pub matchhere_lem : (re text : List ℕ) → (matchhere re text ≡ true) ↔ Here re text
matchhere_lem re text = (matchhere_sound re text, matchhere_complete re text)

-- The texts that contain an instance of the pattern.
abbrev pub Somewhere : List ℕ → List ℕ → Type 0
Somewhere re text = (u : List ℕ) × (v : List ℕ) × (u ++ v ≡ text) × Here re v

match_from_sound : (re text : List ℕ) → match_from re text ≡ true → Somewhere re text
unfolding match_from
match_from_sound re [] e = ([], [], refl, matchhere_sound re [] e)
match_from_sound re (x ∷ text) e = elim (Bool-cases (matchhere re (x ∷ text))) [
  | inl now ↦ ([], x ∷ text, refl, matchhere_sound re (x ∷ text) now)
  | inr later ↦
      let (u, v, p, h) = match_from_sound re text (rw later at e) in
      (x ∷ u, v, ap (λ l. x ∷ l) p, h)
]

match_from_complete : (re u v : List ℕ) → matchhere re v ≡ true → match_from re (u ++ v) ≡ true
unfolding match_from
match_from_complete re [] [] e = e
match_from_complete re [] (x ∷ v) e = rw e
match_from_complete re (y ∷ u) v e = ground (arith, match_from_complete re u v e)

match_from_lem : (re text : List ℕ) → (match_from re text ≡ true) ↔ Somewhere re text
match_from_lem re text = (
  match_from_sound re text,
  λ (u, v, p, h).
      subst (λ t. match_from re t ≡ true) p
        (match_from_complete re u v (matchhere_complete re v h)),
)

-- match finds exactly the texts that the pattern describes: behind a caret, those that begin with an
-- instance of the rest of the pattern; otherwise, also for the empty pattern, those that contain an
-- instance of it.
pub match_re_lem :
    (c : ℕ) (re text : List ℕ)
    → ((match_re (caret ∷ re) text ≡ true) ↔ Here re text)
      × (c ≢ caret → (match_re (c ∷ re) text ≡ true) ↔ Somewhere (c ∷ re) text)
      × ((match_re [] text ≡ true) ↔ Somewhere [] text)
unfolding match_re
match_re_lem c re text = (
  matchhere_lem re text,
  (λ ne. rw (==_ne c caret ne) (match_from_lem (c ∷ re) text)),
  match_from_lem [] text,
)
