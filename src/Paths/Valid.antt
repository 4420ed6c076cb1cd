-- ===== src/Paths/Valid.antt =====
-- The paths that `file_contains_only_valid_chars` of src/config.rs accepts, described by their
-- pieces between slashes.
use transmitic_core.Common.{ℕ, ◌≡◌, sym, ap, subst, ◌∙◌, true, List, [], ◌∷◌, All, ◌↔◌}
use transmitic_core.Paths.{file_contains_only_valid_chars, get_blocked_file_path_chars}
use transmitic_core.Paths.Parts.{path_iter}
use transmitic_core.Paths.Pieces.{joined, IsPiece, split_pieces, path_iter-joined, parts_of}
use transmitic_core.Paths.Loops.{Avoids, IsNamed, AreParts, file_contains_only_valid_chars-loops}
use transmitic_core.Paths.Kinds.{
  path_chars, slashes, IsFirst, IsLater, IsSlashed, replace-slashes, slashes-IsSlashed,
  joined-IsSlashed, all_parts,
}

-- The pieces of a path between slashes, and what they are.
pub record IsAccepted (path : List ℕ) : Type 0 where
  pub first : List ℕ
  pub rest : List (List ℕ)
  pub whole : joined first rest ≡ slashes path
  pub pieces : All IsPiece (first ∷ rest)
  pub clean : Avoids path_chars (slashes path)
  pub front : IsFirst first
  pub behind : All IsLater rest

-- A path is accepted exactly when, with slashes for its backslashes, it holds none of the
-- characters `*?"<>|`, and of its pieces between slashes the first is empty, a drive (one byte
-- and a colon) or a name, and each other one is empty, a single period or a name, where a name is
-- not made of periods only and holds none of `*?"<>|\:/`.
pub file_contains_only_valid_chars_iff :
    (path : List ℕ) → (file_contains_only_valid_chars path ≡ true) ↔ IsAccepted path
unfolding get_blocked_file_path_chars
file_contains_only_valid_chars_iff path = (forth, back)
  where
    loops : (file_contains_only_valid_chars path ≡ true) ↔ (
        Avoids get_blocked_file_path_chars (slashes path)
        × AreParts 0 (path_iter (slashes path))
        × All IsNamed (path_iter (slashes path)))
    loops =
        subst
          (λ p. (file_contains_only_valid_chars path ≡ true) ↔ (
            Avoids get_blocked_file_path_chars p
            × AreParts 0 (path_iter p)
            × All IsNamed (path_iter p)))
          (replace-slashes path) (file_contains_only_valid_chars-loops path)

    parts :
        (first : List ℕ) (rest : List (List ℕ))
        → joined first rest ≡ slashes path
        → All IsPiece (first ∷ rest)
        → path_iter (slashes path) ≡ parts_of first rest
    parts first rest whole pieces = ap path_iter (sym whole) ∙ path_iter-joined first rest pieces

    slashed :
        (first : List ℕ) (rest : List (List ℕ))
        → joined first rest ≡ slashes path
        → All IsSlashed (first ∷ rest)
    slashed first rest whole =
        joined-IsSlashed first rest (subst IsSlashed (sym whole) (slashes-IsSlashed path))

    forth : file_contains_only_valid_chars path ≡ true → IsAccepted path
    forth h =
        let (first, rest, found, whole, pieces) = split_pieces [] (slashes path) tt in
        let good = (all_parts first rest pieces (slashed first rest whole)).0 (
          subst (λ ps. AreParts 0 ps × All IsNamed ps) (parts first rest whole pieces)
            ((loops.0 h).1, (loops.0 h).2)) in
        record {
          first = first;
          rest = rest;
          whole = whole;
          pieces = pieces;
          clean = (loops.0 h).0;
          front = good.0;
          behind = good.1;
        }

    back : IsAccepted path → file_contains_only_valid_chars path ≡ true
    back a =
        let good =
          subst (λ ps. AreParts 0 ps × All IsNamed ps) (sym (parts a.first a.rest a.whole a.pieces))
            ((all_parts a.first a.rest a.pieces (slashed a.first a.rest a.whole)).1
              (a.front, a.behind)) in
        loops.1 (a.clean, good.0, good.1)
