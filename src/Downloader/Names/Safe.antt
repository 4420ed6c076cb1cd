-- ===== src/Downloader/Names/Safe.antt =====
-- The names that `get_sanitized_disk_file_name` of src/outgoing_downloader.rs gives.
use transmitic_core.Common.{
  ℕ, suc, ◌≡◌, ◌≢◌, refl, ap, subst, true, false, ◌||◌, Bool-cases, ◌⊎◌, inl, inr, Option, none,
  some, List, [], ◌∷◌, ◌++◌, ◌==◌, All, All-append, ok, text_eq, text_eq_refl, text_eq_iff,
  is_empty, arith,
}
use transmitic_core.AppAggregator.{Text}
use transmitic_core.Paths.Parts.{
  split, split_loop, proper_parts, relative_parts, path_iter, replace,
}
use transmitic_core.SharedFile.{SharedFile, path}
use transmitic_core.Downloader.Names.{
  replace_double, sanitize_loop, sanitize_disk_path, last, is_normal, normal, unwrap, file_name,
  get_sanitized_disk_file_name,
}

-- Neither a NUL nor a backslash.
abbrev pub IsClean : ℕ → Type 0
IsClean c = ((c == 0) ≡ false) × ((c == 0x5c) ≡ false)

-- Nor a slash.
abbrev pub IsPlain : ℕ → Type 0
IsPlain c = IsClean c × ((c == b'/') ≡ false)

-- A name that stands for a file of its directory, and for nothing else.
abbrev pub IsName : Text → Type 0
IsName n = All IsPlain n × (n ≢ []) × (n ≢ b'.' ∷ []) × (n ≢ b'.' ∷ b'.' ∷ [])

abbrev cleaned : Text → Text
cleaned s = replace 0 b'0' (replace 0x5c b'/' s)

cleaned-All : (s : Text) → All IsClean (cleaned s)
unfolding replace
cleaned-All [] = tt
cleaned-All (c ∷ s) = ((ground arith, ground arith), cleaned-All s)

replace-IsClean : (s : Text) → All IsClean s → replace 0 b'0' s ≡ s
unfolding replace
replace-IsClean [] h = refl
replace-IsClean (c ∷ s) h = ground (arith, h.0, replace-IsClean s h.1)

replace_double-IsClean : (s : Text) → All IsClean s → replace_double s ≡ s
unfolding replace_double
replace_double-IsClean [] h = refl
replace_double-IsClean (c ∷ []) h = refl
replace_double-IsClean (c ∷ d ∷ s) h =
    rw (h.0.1) (ap (λ t. c ∷ t) (replace_double-IsClean (d ∷ s) h.1))

sanitize_loop-IsClean : (n : ℕ) (s : Text) → All IsClean s → sanitize_loop (suc n) s ≡ ok s
unfolding sanitize_loop
sanitize_loop-IsClean n s h =
    rw (replace-IsClean s h, replace_double-IsClean s h, text_eq_refl s) refl

sanitize_loop-replace :
    (n : ℕ) (s : Text)
    → All IsClean (replace 0 b'0' s)
    → sanitize_loop (suc (suc n)) s ≡ ok (replace 0 b'0' s)
unfolding sanitize_loop
sanitize_loop-replace n s h = elim (Bool-cases (text_eq (replace 0 b'0' s) s)) [
  | inl same ↦ rw (same, replace_double-IsClean (replace 0 b'0' s) h, same) refl
  | inr other ↦ rw other (sanitize_loop-IsClean n (replace 0 b'0' s) h)
]

-- The path is made safe in two rounds at most, so the attempts never run out: its backslashes
-- become slashes, and its NULs zeros.
sanitize_disk_path_lem : (s : Text) → sanitize_disk_path s ≡ ok (cleaned s)
unfolding sanitize_disk_path
sanitize_disk_path_lem s = sanitize_loop-replace 8 (replace 0x5c b'/' s) (cleaned-All s)

-- The root, or a part that is not empty and has no slash.
abbrev IsPart : Text → Type 0
IsPart p = (p ≡ b'/' ∷ []) ⊎ (All IsPlain p × (p ≢ []))

split_loop-All :
    (piece s : Text)
    → All IsPlain piece
    → All IsClean s
    → All (All IsPlain) (split_loop b'/' piece s)
unfolding split_loop
split_loop-All piece [] hp h = (hp, tt)
split_loop-All piece (c ∷ s) hp h = elim (Bool-cases (c == b'/')) [
  | inl cut ↦ rw cut (hp, split_loop-All [] s tt h.1)
  | inr grown ↦ rw grown (
      split_loop-All (piece ++ (c ∷ [])) s (All-append IsPlain piece (c ∷ []) hp ((h.0, grown), tt))
        h.1)
]

not_empty : (p : Text) → is_empty p ≡ false → p ≢ []
not_empty [] h e = cc
not_empty (c ∷ p) h e = cc

proper_parts-IsPart : (ps : List Text) → All (All IsPlain) ps → All IsPart (proper_parts ps)
unfolding proper_parts
proper_parts-IsPart [] h = tt
proper_parts-IsPart (p ∷ ps) h = elim (Bool-cases (is_empty p || text_eq p (b'.' ∷ []))) [
  | inl left_out ↦ rw left_out (proper_parts-IsPart ps h.1)
  | inr kept ↦ rw kept (inr (h.0, not_empty p (ground (arith, kept))), proper_parts-IsPart ps h.1)
]

relative_parts-IsPart : (ps : List Text) → All (All IsPlain) ps → All IsPart (relative_parts ps)
unfolding relative_parts
relative_parts-IsPart [] h = tt
relative_parts-IsPart (p ∷ ps) h = elim (Bool-cases (text_eq p (b'.' ∷ []))) [
  | inl dot ↦ rw dot (inr (h.0, λ e. dot_not_empty p dot e), proper_parts-IsPart ps h.1)
  | inr other ↦ let k = proper_parts-IsPart (p ∷ ps) h in rw other (rw other at k)
]
  where
    dot_not_empty : (p : Text) → text_eq p (b'.' ∷ []) ≡ true → p ≢ []
    dot_not_empty p dot e = cc ((text_eq_iff p (b'.' ∷ [])).0 dot, e)

path_iter-IsPart : (s : Text) → All IsClean s → All IsPart (path_iter s)
unfolding path_iter split
path_iter-IsPart [] h = tt
path_iter-IsPart (c ∷ s) h = elim (Bool-cases (c == b'/')) [
  | inl root ↦
      rw root (inl refl, proper_parts-IsPart (split_loop b'/' [] s) (split_loop-All [] s tt h.1))
  | inr other ↦
      let k = relative_parts-IsPart (split_loop b'/' [] (c ∷ s)) (split_loop-All [] (c ∷ s) tt h) in
      rw other (rw other at k)
]

last-IsPart : (ps : List Text) (n : Text) → All IsPart ps → last ps ≡ some n → IsPart n
unfolding last
last-IsPart [] n h e = cc
last-IsPart (p ∷ []) n h e = subst IsPart (some-injective e) h.0
  where
    some-injective : {a b : Text} → ◌≡◌ {A = Option Text} (some a) (some b) → a ≡ b
    some-injective e = cc
last-IsPart (p ∷ q ∷ ps) n h e = last-IsPart (q ∷ ps) n h.1 e

differs : (n t : Text) → text_eq n t ≡ false → n ≢ t
differs n t h e = cc ((text_eq_iff n t).1 e, h)

not_root : (p : Text) → text_eq p (b'/' ∷ []) ≡ false → IsPart p → All IsPlain p × (p ≢ [])
not_root p other (inl root) = absurd (differs p (b'/' ∷ []) other root)
not_root p other (inr plain) = plain

normal_part-IsName : (p : Text) → is_normal p ≡ true → IsPart p → IsName p
normal_part-IsName p accepted part =
    let (plain, filled) = not_root p (ground (arith, accepted)) part in
    (
      plain,
      filled,
      differs p (b'.' ∷ []) (ground (arith, accepted)),
      differs p (b'.' ∷ b'.' ∷ []) (ground (arith, accepted)),
    )

normal-IsName :
    (o : Option Text) (n : Text)
    → ((p : Text) → o ≡ some p → IsPart p)
    → unwrap (normal o) ≡ ok n
    → IsName n
normal-IsName none n h e = cc
normal-IsName (some p) n h e = elim (Bool-cases (is_normal p)) [
  | inr refused ↦ let k = rw refused at e in cc
  | inl accepted ↦
      let k = rw accepted at e in
      subst IsName (let same : p ≡ n = cc in same) (normal_part-IsName p accepted (h p refl))
]

-- A name that `get_sanitized_disk_file_name` returns, for any shared file of a peer, is not empty,
-- not `.` or `..`, and holds no slash, no backslash and no NUL.
pub get_sanitized_disk_file_name-IsName :
    (file : SharedFile) (n : Text) → get_sanitized_disk_file_name file ≡ ok n → IsName n
unfolding get_sanitized_disk_file_name file_name
get_sanitized_disk_file_name-IsName file n e =
    let k = rw (sanitize_disk_path_lem (path file)) at e in
    normal-IsName (last (path_iter (cleaned (path file)))) n
      (λ p found.
        last-IsPart (path_iter (cleaned (path file))) p
          (path_iter-IsPart (cleaned (path file)) (cleaned-All (path file))) found)
      k
