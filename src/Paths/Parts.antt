-- ===== src/Paths/Parts.antt =====
-- `str::replace` of one byte, and the parts of a path as `Path::iter` gives them on unix: the
-- root first, no empty part, and no `.` but at the very front of a relative path.
use transmitic_core.Common.{ℕ, ◌||◌, List, [], ◌∷◌, ◌++◌, ◌==◌, if◌then◌else◌, is_empty, text_eq}

unfoldable pub replace : ℕ → ℕ → List ℕ → List ℕ
replace from to [] = []
replace from to (c ∷ s) = (if c == from then to else c) ∷ replace from to s

-- The pieces between separators; `piece` is what has been read of the current one.
unfoldable pub split_loop : ℕ → List ℕ → List ℕ → List (List ℕ)
split_loop sep piece [] = piece ∷ []
split_loop sep piece (c ∷ s) =
    let cut = piece ∷ split_loop sep [] s in
    let grown = split_loop sep (piece ++ (c ∷ [])) s in if c == sep then cut else grown

unfoldable pub split : ℕ → List ℕ → List (List ℕ)
unfolding split_loop
split sep s = split_loop sep [] s

-- Drops the empty pieces and the `.` pieces.
unfoldable pub proper_parts : List (List ℕ) → List (List ℕ)
proper_parts [] = []
proper_parts (p ∷ ps) =
    if is_empty p || text_eq p (b'.' ∷ []) then proper_parts ps else p ∷ proper_parts ps

unfoldable pub relative_parts : List (List ℕ) → List (List ℕ)
unfolding proper_parts
relative_parts [] = []
relative_parts (p ∷ ps) =
    if text_eq p (b'.' ∷ []) then p ∷ proper_parts ps else proper_parts (p ∷ ps)

unfoldable pub path_iter : List ℕ → List (List ℕ)
unfolding relative_parts split
path_iter [] = []
path_iter (c ∷ s) =
    if c == b'/'
    then (b'/' ∷ []) ∷ proper_parts (split b'/' s)
    else relative_parts (split b'/' (c ∷ s))
