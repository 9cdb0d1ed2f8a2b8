-- ===== src/Providers/Pattern.antt =====
-- The regular expressions of pkg/providers/error_classifier.go, as Go's regexp matches them: a
-- sequence of character classes with ?, * and +, which prefer to take more, word boundaries, and one
-- capture group. Go finds the leftmost match, and of those the first in this preference.
use ebiclaw.Prelude.{
  ℕ, Bool, false, ◌&&◌, ◌||◌, not, Option, none, some, List, [], ◌∷◌, if◌then◌else◌, leb, ◌==◌,
}
use ebiclaw.Strings.{Text}

abbrev pub Class : Type 0
Class = ℕ → Bool

pub data Item : Type 0 where
  one : Class → Item
  optional : Class → Item
  star : Class → Item
  plus : Class → Item
  captured : Class → Item
  boundary : Item

-- [0-9A-Za-z_], by which \b tells a word
unfoldable pub is_word : Class
is_word c = (leb 48 c && leb c 57) || (leb 65 c && leb c 90) || (leb 97 c && leb c 122) || (c == 95)

unfoldable pub word_at : Text → Bool
word_at [] = false
word_at (c ∷ s) = is_word c

-- \b between the code point before, if any, and the text that follows.
unfoldable pub at_boundary : Bool → Text → Bool
unfolding word_at is_word
at_boundary word_before s = if word_before then not (word_at s) else word_at s

-- What a match of the rest gives: the code points of the capture group.
abbrev pub Rest : Type 0
Rest = Bool → Text → Option Text

unfoldable pub or_else : Option Text → Option Text → Option Text
or_else none b = b
or_else (some a) b = some a

-- class* and then the rest, the longest run first.
unfoldable pub match_star : Class → Rest → Rest
unfolding or_else is_word
match_star class rest word [] = rest word []
match_star class rest word (c ∷ s) =
    let longer = match_star class rest (is_word c) s in
    if class c then or_else longer (rest word (c ∷ s)) else rest word (c ∷ s)

unfoldable pub match_one : Class → Rest → Rest
unfolding is_word
match_one class rest word [] = none
match_one class rest word (c ∷ s) = if class c then rest (is_word c) s else none

unfoldable pub capture_one : Class → Rest → Rest
unfolding is_word
capture_one class rest word [] = none
capture_one class rest word (c ∷ s) =
    if class c
    then elim (rest (is_word c) s) [ none ↦ none | some group ↦ some (c ∷ group) ]
    else none

-- A match of the items that begins here; the flag says whether a word character stands before.
unfoldable pub match_here : List Item → Rest
unfolding match_one match_star capture_one at_boundary
match_here [] word s = some []
match_here (one class ∷ items) word s = match_one class (match_here items) word s
match_here (optional class ∷ items) word s =
    or_else (match_one class (match_here items) word s) (match_here items word s)
match_here (star class ∷ items) word s = match_star class (match_here items) word s
match_here (plus class ∷ items) word s =
    match_one class (match_star class (match_here items)) word s
match_here (captured class ∷ items) word s = capture_one class (match_here items) word s
match_here (boundary ∷ items) word s =
    let rest = match_here items word s in if at_boundary word s then rest else none

-- The leftmost match.
unfoldable pub find_from : List Item → Rest
unfolding match_here
find_from items word [] = match_here items word []
find_from items word (c ∷ s) =
    or_else (match_here items word (c ∷ s)) (find_from items (is_word c) s)

-- FindStringSubmatch, and with it MatchString: the capture group of the leftmost match.
unfoldable pub find_match : List Item → Text → Option Text
unfolding find_from
find_match items s = find_from items false s
