-- ===== src/Paths/Kinds.antt =====
-- The kinds of pieces between the slashes of a path that src/config.rs accepts.
use transmitic_core.Common.{
  ℕ, suc, ◌≡◌, ◌≢◌, refl, sym, ap, subst, true, false, ◌||◌, List, [], ◌∷◌, ◌++◌, map, ◌==◌,
  if◌then◌else◌, All, ◌⊎◌, ◌↔◌, inl, inr, arith, Bool-cases, is_empty, text_eq, text_eq_iff,
}
use transmitic_core.Paths.{is_drive, is_separator, get_blocked_file_name_chars}
use transmitic_core.Paths.Parts.{replace, proper_parts}
use transmitic_core.Paths.Pieces.{joined, IsPiece, parts_of}
use transmitic_core.Paths.Loops.{Avoids, IsNamed, IsPart, AreParts}

-- `*?"<>|`
abbrev pub path_chars : List ℕ
path_chars = b'*' ∷ b'?' ∷ 0x22 ∷ b'<' ∷ b'>' ∷ b'|' ∷ []

-- `*?"<>|\:/`
abbrev pub name_chars : List ℕ
name_chars = b'*' ∷ b'?' ∷ 0x22 ∷ b'<' ∷ b'>' ∷ b'|' ∷ 0x5c ∷ b':' ∷ b'/' ∷ []

-- The path with slashes for backslashes.
abbrev pub slashes : List ℕ → List ℕ
slashes path = map (λ c. if c == 0x5c then b'/' else c) path

-- Nothing, as in front of the root; a drive, such as `c:`; or a name.
abbrev pub IsFirst : List ℕ → Type 0
IsFirst s = (s ≡ []) ⊎ ((c : ℕ) × (s ≡ c ∷ b':' ∷ [])) ⊎ (IsNamed s × Avoids name_chars s)

-- Nothing, as between two slashes; the directory itself; or a name.
abbrev pub IsLater : List ℕ → Type 0
IsLater s = (s ≡ []) ⊎ (s ≡ b'.' ∷ []) ⊎ (IsNamed s × Avoids name_chars s)

pub replace-slashes : (path : List ℕ) → replace 0x5c b'/' path ≡ slashes path
unfolding replace
replace-slashes [] = refl
replace-slashes (c ∷ path) = ap (λ s. (if c == 0x5c then b'/' else c) ∷ s) (replace-slashes path)

abbrev pub IsSlashed : List ℕ → Type 0
IsSlashed s = All (λ c. c ≢ 0x5c) s

pub slashes-IsSlashed : (path : List ℕ) → IsSlashed (slashes path)
slashes-IsSlashed [] = tt
slashes-IsSlashed (c ∷ path) = (ground arith, slashes-IsSlashed path)

append-IsSlashed : (s t : List ℕ) → IsSlashed (s ++ t) → IsSlashed s × IsSlashed t
append-IsSlashed [] t h = (tt, h)
append-IsSlashed (c ∷ s) t h = let ih = append-IsSlashed s t h.1 in ((h.0, ih.0), ih.1)

pub joined-IsSlashed :
    (first : List ℕ) (rest : List (List ℕ))
    → IsSlashed (joined first rest)
    → All IsSlashed (first ∷ rest)
unfolding joined
joined-IsSlashed first [] h = (h, tt)
joined-IsSlashed first (piece ∷ rest) h =
    let both = append-IsSlashed first (b'/' ∷ joined piece rest) h in
    (both.0, joined-IsSlashed piece rest both.1.1)

not-is_separator : (s : List ℕ) → IsPiece s → IsSlashed s → is_separator s ≢ true
unfolding is_separator
not-is_separator s piece slashed h = elim (Bool-cases (text_eq s (b'/' ∷ []))) [
  | inl slash ↦ (subst IsPiece ((text_eq_iff s (b'/' ∷ [])).0 slash) piece).0 refl
  | inr other ↦
      (subst IsSlashed ((text_eq_iff s (0x5c ∷ [])).0 (ground (arith, h, other))) slashed).0 refl
]

is_drive-form : (s : List ℕ) → is_drive 0 s ≡ true → (c : ℕ) × (s ≡ c ∷ b':' ∷ [])
unfolding is_drive
is_drive-form [] h = cc
is_drive-form (c ∷ []) h = cc
is_drive-form (c ∷ d ∷ []) h = (c, ap (λ x. c ∷ x ∷ []) (ground (arith, h)))
is_drive-form (c ∷ d ∷ e ∷ s) h = absurd (ground (arith, h))

is_drive-of_form : (c : ℕ) → is_drive 0 (c ∷ b':' ∷ []) ≡ true
unfolding is_drive
is_drive-of_form c = refl

is_drive-first : (i : ℕ) (s : List ℕ) → is_drive (suc i) s ≢ true
unfolding is_drive
is_drive-first i s h = ground (arith, h)

-- A part behind the first.
IsPart-behind :
    (i : ℕ) (s : List ℕ) → IsPiece s → IsSlashed s → (IsPart (suc i) s ↔ Avoids name_chars s)
unfolding get_blocked_file_name_chars
IsPart-behind i s piece slashed = (forth, λ h. inr (inr h))
  where
    forth : IsPart (suc i) s → Avoids name_chars s
    forth (inl drive) = absurd (is_drive-first i s drive)
    forth (inr (inl sep)) = absurd (not-is_separator s piece slashed sep)
    forth (inr (inr clean)) = clean

-- The first part, where it is not the root.
IsPart-front :
    (s : List ℕ) → IsPiece s → IsSlashed s → s ≢ [] → ((IsPart 0 s × IsNamed s) ↔ IsFirst s)
unfolding get_blocked_file_name_chars
IsPart-front s piece slashed some_text = (λ h. forth h.0 h.1, back)
  where
    forth : IsPart 0 s → IsNamed s → IsFirst s
    forth (inl drive) named = inr (inl (is_drive-form s drive))
    forth (inr (inl sep)) named = absurd (not-is_separator s piece slashed sep)
    forth (inr (inr clean)) named = inr (inr (named, clean))

    back : IsFirst s → IsPart 0 s × IsNamed s
    back (inl nothing) = absurd (some_text nothing)
    back (inr (inl (c, drive))) =
        subst (λ t. IsPart 0 t × IsNamed t) (sym drive)
          (inl (is_drive-of_form c), λ periods. absurd (ground (arith, periods.1.0)))
    back (inr (inr (named, clean))) = (inr (inr clean), named)

-- The parts behind the first, without the empty ones and the periods.
later_parts :
    (i : ℕ) (pieces : List (List ℕ))
    → All IsPiece pieces
    → All IsSlashed pieces
    → ((AreParts (suc i) (proper_parts pieces) × All IsNamed (proper_parts pieces))
        ↔ All IsLater pieces)
unfolding proper_parts
later_parts i [] p q = (λ h. tt, λ h. (tt, tt))
later_parts i (s ∷ pieces) p q = elim (Bool-cases (is_empty s || text_eq s (b'.' ∷ []))) [
  | inl dropped ↦
      let ih = later_parts i pieces p.1 q.1 in
      rw dropped (λ h. (skipped s dropped, ih.0 h), λ h. ih.1 h.1)
  | inr kept ↦
      let ih = later_parts (suc i) pieces p.1 q.1 in
      let part = IsPart-behind i s p.0 q.0 in
      rw kept (
        λ h. (inr (inr (h.1.0, part.0 h.0.0)), ih.0 (h.0.1, h.1.1)),
        λ h.
            let name = proper s kept h.0 in
            let more_parts = ih.1 h.1 in ((part.1 name.1, more_parts.0), (name.0, more_parts.1)),
      )
]
  where
    skipped : (s : List ℕ) → is_empty s || text_eq s (b'.' ∷ []) ≡ true → IsLater s
    skipped [] e = inl refl
    skipped (c ∷ s) e = inr (inl ((text_eq_iff (c ∷ s) (b'.' ∷ [])).0 e))

    proper :
        (s : List ℕ)
        → is_empty s || text_eq s (b'.' ∷ []) ≡ false
        → IsLater s
        → IsNamed s × Avoids name_chars s
    proper [] e h = cc
    proper (c ∷ s) e (inl nothing) = cc
    proper (c ∷ s) e (inr (inl dot)) = cc ((text_eq_iff (c ∷ s) (b'.' ∷ [])).1 dot, e)
    proper (c ∷ s) e (inr (inr name)) = name

pub all_parts :
    (first : List ℕ) (rest : List (List ℕ))
    → All IsPiece (first ∷ rest)
    → All IsSlashed (first ∷ rest)
    → ((AreParts 0 (parts_of first rest) × All IsNamed (parts_of first rest))
        ↔ (IsFirst first × All IsLater rest))
unfolding parts_of is_separator text_eq
all_parts [] [] p q = (λ h. (inl refl, tt), λ h. (tt, tt))
all_parts [] (piece ∷ rest) p q =
    let later = later_parts 0 (piece ∷ rest) p.1 q.1 in
    (
      λ h. (inl refl, later.0 (h.0.1, h.1.1)),
      λ h.
          let more_parts = later.1 h.1 in
          (
            (inr (inl refl), more_parts.0),
            (λ periods. absurd (ground (arith, periods.0)), more_parts.1),
          ),
    )
all_parts (c ∷ w) rest p q =
    let later = later_parts 0 rest p.1 q.1 in
    let one = IsPart-front (c ∷ w) p.0 q.0 (λ e. cc) in
    (
      λ h. (one.0 (h.0.0, h.1.0), later.0 (h.0.1, h.1.1)),
      λ h.
          let head_part = one.1 h.0 in
          let more_parts = later.1 h.1 in
          ((head_part.0, more_parts.0), (head_part.1, more_parts.1)),
    )
