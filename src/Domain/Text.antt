-- ===== src/Domain/Text.antt =====
-- Python's `str` as the list of its code points: equality and order are those of Python.
use Prim.Native.Char.{code}
use lookfile.Prelude.{ℕ, String, Bool, true, false, List, [], ◌∷◌, ltb, ◌==◌, nat_eq, if◌then◌else◌}

abbrev pub Text : Type 0
Text = List ℕ

-- The code points of a literal.
abbrev pub text : String → Text
text String.[] = []
text (String.◌∷◌ c s) = code c ∷ text s

-- `a < b` on strings: lexicographic by code point.
abbrev pub text_lt : Text → Text → Bool
text_lt a [] = false
text_lt [] (y ∷ ys) = true
text_lt (x ∷ xs) (y ∷ ys) =
    let rest = text_lt xs ys in if ltb x y then true else if x == y then rest else false
