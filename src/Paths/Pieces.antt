-- ===== src/Paths/Pieces.antt =====
-- The pieces of a path between slashes, and the parts that `Path::iter` makes of them.
use transmitic_core.Common.{
  ℕ, ◌≡◌, ◌≢◌, inl, inr, refl, sym, ap, ap₂, ◌∙◌, false, List, [], ◌∷◌, ◌++◌, ◌==◌, All-append,
  text_eq, All, append-nil, append_assoc, arith, Bool-cases,
}
use transmitic_core.Paths.Parts.{path_iter, split, split_loop, proper_parts, relative_parts}

-- The pieces with a slash between any two.
unfoldable pub joined : List ℕ → List (List ℕ) → List ℕ
joined first [] = first
joined first (piece ∷ rest) = first ++ (b'/' ∷ joined piece rest)

abbrev pub IsPiece : List ℕ → Type 0
IsPiece s = All (λ c. c ≢ b'/') s

-- Every text is made of pieces, and `split` finds them.
pub split_pieces :
    (piece s : List ℕ)
    → IsPiece piece
    → (first : List ℕ) × (rest : List (List ℕ)) × (split_loop b'/' piece s ≡ first ∷ rest)
      × (joined first rest ≡ piece ++ s)
      × All IsPiece (first ∷ rest)
unfolding split_loop joined
split_pieces piece [] h = (piece, [], refl, sym (append-nil piece), (h, tt))
split_pieces piece (c ∷ s) h = elim (Bool-cases (c == b'/')) [
  | inl slash ↦
      let (first, rest, parts, whole, pieces) = split_pieces [] s tt in
      (
        piece,
        first ∷ rest,
        rw slash (ap (λ ps. piece ∷ ps) parts),
        ap₂ (λ d t. piece ++ (d ∷ t)) (ground (arith, slash)) whole,
        (h, pieces),
      )
  | inr other ↦
      let (first, rest, parts, whole, pieces) =
        split_pieces (piece ++ (c ∷ [])) s
          (All-append _ piece (c ∷ []) h (ground (arith, other), tt)) in
      (first, rest, rw other parts, whole ∙ append_assoc piece (c ∷ []) s, pieces)
]

-- Text without a slash is read into the piece.
split_loop-append :
    (piece s tail : List ℕ)
    → IsPiece s
    → split_loop b'/' piece (s ++ tail) ≡ split_loop b'/' (piece ++ s) tail
unfolding split_loop
split_loop-append piece [] tail h = ap (λ t. split_loop b'/' t tail) (sym (append-nil piece))
split_loop-append piece (c ∷ s) tail h =
    let other : (c == b'/') ≡ false = ground (arith, h.0) in
    rw other (split_loop-append (piece ++ (c ∷ [])) s tail h.1)
    ∙ ap (λ t. split_loop b'/' t tail) (append_assoc piece (c ∷ []) s)

-- The pieces are the only ones.
pub split-joined :
    (first : List ℕ) (rest : List (List ℕ))
    → All IsPiece (first ∷ rest)
    → split b'/' (joined first rest) ≡ first ∷ rest
unfolding split joined split_loop
split-joined first [] h =
    ap (λ t. split_loop b'/' [] t) (sym (append-nil first)) ∙ split_loop-append [] first [] h.0
split-joined first (piece ∷ rest) h =
    split_loop-append [] first (b'/' ∷ joined piece rest) h.0
    ∙ ap (λ ps. first ∷ ps) (split-joined piece rest h.1)

relative_parts-first :
    (c : ℕ) (w : List ℕ) (rest : List (List ℕ))
    → relative_parts ((c ∷ w) ∷ rest) ≡ (c ∷ w) ∷ proper_parts rest
unfolding relative_parts proper_parts
relative_parts-first c w rest = elim (Bool-cases (text_eq (c ∷ w) (b'.' ∷ []))) [
  | inl dot ↦ rw dot refl
  | inr other ↦ rw other refl
]

-- The parts, from the pieces.
unfoldable pub parts_of : List ℕ → List (List ℕ) → List (List ℕ)
parts_of [] [] = []
parts_of [] (piece ∷ rest) = (b'/' ∷ []) ∷ proper_parts (piece ∷ rest)
parts_of (c ∷ w) rest = (c ∷ w) ∷ proper_parts rest

path_iter-relative :
    (c : ℕ) (s w : List ℕ) (rest : List (List ℕ))
    → c ≢ b'/'
    → split b'/' (c ∷ s) ≡ (c ∷ w) ∷ rest
    → path_iter (c ∷ s) ≡ (c ∷ w) ∷ proper_parts rest
unfolding path_iter
path_iter-relative c s w rest h e =
    let other : (c == b'/') ≡ false = ground (arith, h) in
    rw other
      (ap relative_parts (rw (split, split_loop, other) at e) ∙ relative_parts-first c w rest)

pub path_iter-joined :
    (first : List ℕ) (rest : List (List ℕ))
    → All IsPiece (first ∷ rest)
    → path_iter (joined first rest) ≡ parts_of first rest
unfolding joined parts_of
path_iter-joined [] [] h = unfold path_iter in refl
path_iter-joined [] (piece ∷ rest) h =
    unfold path_iter in ap (λ ps. (b'/' ∷ []) ∷ proper_parts ps) (split-joined piece rest h.1)
path_iter-joined (c ∷ w) [] h = path_iter-relative c w w [] h.0.0 (split-joined (c ∷ w) [] h)
path_iter-joined (c ∷ w) (piece ∷ rest) h =
    path_iter-relative c (w ++ (b'/' ∷ joined piece rest)) w (piece ∷ rest) h.0.0
      (split-joined (c ∷ w) (piece ∷ rest) h)
