-- ===== src/Paths/Loops.antt =====
-- What the loops of `file_contains_only_valid_chars` test, part by part.
use transmitic_core.Common.{
  ℕ, suc, ◌≡◌, refl, ◌∙◌, true, false, ◌||◌, List, [], ◌∷◌, ◌==◌, contains, All, ◌⊎◌, ◌↔◌, inl, inr,
  arith, Bool-cases,
}
use transmitic_core.Paths.{
  file_contains_only_valid_chars, contains_any, is_drive, is_separator, parts_valid, keep_part,
  parts_kept, get_blocked_file_name_chars, get_blocked_file_path_chars,
}
use transmitic_core.Paths.Parts.{path_iter, replace}

-- No byte of the text is one of the characters.
abbrev pub Avoids : List ℕ → List ℕ → Type 0
Avoids chars s = All (λ c. contains chars c ≡ false) s

-- The part is not made of periods only.
abbrev pub IsNamed : List ℕ → Type 0
IsNamed s = ¬ (All (λ c. c ≡ b'.') s)

-- A part at an index: a drive, a separator, or free of the blocked characters.
abbrev pub IsPart : ℕ → List ℕ → Type 0
IsPart i s = (is_drive i s ≡ true) ⊎ (is_separator s ≡ true) ⊎ Avoids get_blocked_file_name_chars s

abbrev pub AreParts : ℕ → List (List ℕ) → Type 0
AreParts i [] = Unit
AreParts i (s ∷ parts) = IsPart i s × AreParts (suc i) parts

contains_any_nil : (chars : List ℕ) → contains_any chars [] ≡ false
unfolding contains_any contains
contains_any_nil [] = refl
contains_any_nil (c ∷ chars) = contains_any_nil chars

contains_any_cons :
    (chars : List ℕ) (x : ℕ) (s : List ℕ)
    → contains_any chars (x ∷ s) ≡ contains chars x || contains_any chars s
unfolding contains_any contains
contains_any_cons [] x s = refl
contains_any_cons (c ∷ chars) x s = ground (arith, contains_any_cons chars x s)

pub contains_any-Avoids : (chars s : List ℕ) → (contains_any chars s ≡ false) ↔ Avoids chars s
contains_any-Avoids chars [] = (λ h. tt, λ h. contains_any_nil chars)
contains_any-Avoids chars (x ∷ s) =
    let ih = contains_any-Avoids chars s in
    (
      λ h. (
        ground (arith, h, contains_any_cons chars x s),
        ih.0 (ground (arith, h, contains_any_cons chars x s)),
      ),
      λ h. contains_any_cons chars x s ∙ ground (arith, h.0, ih.1 h.1),
    )

keep_part-IsNamed : (s : List ℕ) → (keep_part s ≡ true) ↔ IsNamed s
unfolding keep_part
keep_part-IsNamed [] = (λ h. cc, λ n. absurd (n tt))
keep_part-IsNamed (c ∷ s) = elim (Bool-cases (c == b'.')) [
  | inl dot ↦
      let ih = keep_part-IsNamed s in
      rw dot (λ h n. ih.0 h n.1, λ n. ih.1 (λ all. n (ground arith, all)))
  | inr other ↦ rw other (λ h n. ground (arith, n.0), λ n. refl)
]

parts_kept-IsNamed : (parts : List (List ℕ)) → (parts_kept parts ≡ true) ↔ All IsNamed parts
unfolding parts_kept
parts_kept-IsNamed [] = (λ h. tt, λ h. refl)
parts_kept-IsNamed (s ∷ parts) =
    let ih = parts_kept-IsNamed parts in
    let named = keep_part-IsNamed s in
    elim (Bool-cases (keep_part s)) [
      | inl yes_kept ↦ rw yes_kept (λ h. (named.0 yes_kept, ih.0 h), λ h. ih.1 h.1)
      | inr dropped ↦ rw dropped (λ h. cc, λ h. cc (named.1 h.0, dropped))
    ]

parts_valid-AreParts :
    (i : ℕ) (parts : List (List ℕ)) → (parts_valid i parts ≡ true) ↔ AreParts i parts
unfolding parts_valid
parts_valid-AreParts i [] = (λ h. tt, λ h. refl)
parts_valid-AreParts i (s ∷ parts) =
    let ih = parts_valid-AreParts (suc i) parts in
    let free = contains_any-Avoids get_blocked_file_name_chars s in
    elim (Bool-cases (is_drive i s)) [
      | inl drive ↦ rw drive (λ h. (inl refl, ih.0 h), λ h. ih.1 h.1)
      | inr no_drive ↦ elim (Bool-cases (is_separator s)) [
        | inl sep ↦ rw (no_drive, sep) (λ h. (inr (inl refl), ih.0 h), λ h. ih.1 h.1)
        | inr no_sep ↦ elim (Bool-cases (contains_any get_blocked_file_name_chars s)) [
          | inl blocked ↦ rw (no_drive, no_sep, blocked) (λ h. cc, λ h. refuted blocked h.0)
          | inr clean ↦
              rw (no_drive, no_sep, clean) (λ h. (inr (inr (free.0 clean)), ih.0 h), λ h. ih.1 h.1)
        ]
      ]
    ]
  where
    refuted :
        contains_any get_blocked_file_name_chars s ≡ true
        → (false ≡ true) ⊎ (false ≡ true) ⊎ Avoids get_blocked_file_name_chars s
        → false ≡ true
    refuted blocked (inl d) = d
    refuted blocked (inr (inl t)) = t
    refuted blocked (inr (inr clean)) =
        cc (blocked, (contains_any-Avoids get_blocked_file_name_chars s).1 clean)

-- Accepted by the loops.
pub file_contains_only_valid_chars-loops :
    (path : List ℕ)
    → (file_contains_only_valid_chars path ≡ true) ↔ (
        Avoids get_blocked_file_path_chars (replace 0x5c b'/' path)
        × AreParts 0 (path_iter (replace 0x5c b'/' path))
        × All IsNamed (path_iter (replace 0x5c b'/' path)))
unfolding file_contains_only_valid_chars
file_contains_only_valid_chars-loops path =
    let p = replace 0x5c b'/' path in
    let free = contains_any-Avoids get_blocked_file_path_chars p in
    let valid = parts_valid-AreParts 0 (path_iter p) in
    let kept = parts_kept-IsNamed (path_iter p) in
    elim (Bool-cases (contains_any get_blocked_file_path_chars p)) [
      | inl blocked ↦ rw blocked (λ h. cc, λ h. cc (free.1 h.0, blocked))
      | inr clean ↦ elim (Bool-cases (parts_valid 0 (path_iter p))) [
        | inl good ↦ rw (clean, good) (λ h. (free.0 clean, valid.0 good, kept.0 h), λ h. kept.1 h.2)
        | inr bad ↦ rw (clean, bad) (λ h. cc, λ h. cc (valid.1 h.1, bad))
      ]
    ]
