-- ===== src/Grep.antt =====
-- TDT4186 - OS/Labs/Lab3/user/grep.c: the matcher of Kernighan and Pike. A string is the list of its
-- characters before the NUL, so that `*text == '\0'` is the test for the empty list; re + 1 is the
-- tail. matchhere and matchstar call each other on a shorter pattern only: matchstar takes
-- matchhere(re, ·) for the pattern behind the star.
pub mod Spec
mod Tests
use ntnu_courses.Base.{ℕ, Bool, true, false, ◌||◌, ◌&&◌, List, [], ◌∷◌, ◌==◌, if◌then◌else◌}

abbrev pub star : ℕ
star = b'*'

abbrev pub dot : ℕ
dot = b'.'

abbrev pub dollar : ℕ
dollar = b'$'

abbrev pub caret : ℕ
caret = b'^'

-- *text == '\0'.
abbrev pub at_end : List ℕ → Bool
at_end [] = true
at_end (x ∷ text) = false

-- if(*text!='\0' && (re[0]=='.' || re[0]==*text)) return matchhere(re+1, text+1); return 0;
unfoldable pub match_one : ℕ → (List ℕ → Bool) → List ℕ → Bool
match_one c rest [] = false
match_one c rest (x ∷ text) = if c == dot || c == x then rest text else false

-- matchstar(c, re, text), where `rest` is matchhere(re, ·).
unfoldable pub matchstar : ℕ → (List ℕ → Bool) → List ℕ → Bool
matchstar c rest [] = rest []
matchstar c rest (x ∷ text) =
    let more = matchstar c rest text in
    if rest (x ∷ text) then true else if x == c || c == dot then more else false

unfoldable pub matchhere : List ℕ → List ℕ → Bool
unfolding match_one matchstar
matchhere [] text = true
matchhere (c ∷ []) text = if c == dollar then at_end text else match_one c (matchhere []) text
matchhere (c ∷ d ∷ re) text =
    if d == star then matchstar c (matchhere re) text else match_one c (matchhere (d ∷ re)) text

-- do{ if(matchhere(re, text)) return 1; }while(*text++ != '\0'); return 0;
unfoldable pub match_from : List ℕ → List ℕ → Bool
unfolding matchhere
match_from re [] = matchhere re []
match_from re (x ∷ text) =
    let later = match_from re text in if matchhere re (x ∷ text) then true else later

unfoldable pub match_re : List ℕ → List ℕ → Bool
unfolding match_from matchhere
match_re [] text = match_from [] text
match_re (c ∷ re) text = if c == caret then matchhere re text else match_from (c ∷ re) text
