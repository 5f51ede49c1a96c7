-- ===== src/Grep/Tests.antt =====
-- The pattern `a*b` on the text `xaab`.
use ntnu_courses.Base.{ℕ, ◌≡◌, ◌≢◌, ◌↔◌, refl, true, false, List, [], ◌∷◌}
use ntnu_courses.Grep.{dot, dollar, caret, matchhere, match_re}
use ntnu_courses.Grep.Spec.{Here, Somewhere, match_re_lem}

abbrev pattern_tail : List ℕ
pattern_tail = b'*' ∷ b'b' ∷ []

abbrev text : List ℕ
text = b'x' ∷ b'a' ∷ b'a' ∷ b'b' ∷ []

found : match_re (b'a' ∷ pattern_tail) text ≡ true
unfolding match_re matchhere
found = refl

not_at_start : match_re (caret ∷ b'a' ∷ b'b' ∷ []) text ≡ false
unfolding match_re matchhere
not_at_start = refl

at_the_end : match_re (dot ∷ b'b' ∷ dollar ∷ []) text ≡ true
unfolding match_re matchhere
at_the_end = refl

match_re_lem_example :
    ((match_re (caret ∷ pattern_tail) text ≡ true) ↔ Here pattern_tail text)
    × (b'a' ≢ caret
        → (match_re (b'a' ∷ pattern_tail) text ≡ true) ↔ Somewhere (b'a' ∷ pattern_tail) text)
    × ((match_re [] text ≡ true) ↔ Somewhere [] text)
match_re_lem_example = match_re_lem b'a' pattern_tail text
