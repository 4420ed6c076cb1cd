-- ===== src/Config/Prefixes.antt =====
-- What `starts_with` and `contains` on texts of src/config.rs exclude.
use transmitic_core.Common.{
  ℕ, ◌≡◌, ◌≢◌, refl, ap, true, false, some, [], ◌∷◌, ◌++◌, arith, Bool-cases, inl, inr,
}
use transmitic_core.Config.{Text}
use transmitic_core.Config.Sanitize.{strip_prefix, starts_with}
use transmitic_core.Config.Verify.{contains_text}

strip_prefix-append : (prefix rest : Text) → strip_prefix prefix (prefix ++ rest) ≡ some rest
unfolding strip_prefix
strip_prefix-append [] rest = refl
strip_prefix-append (c ∷ prefix) rest = ground (arith, strip_prefix-append prefix rest)

starts_with-append : (prefix rest : Text) → starts_with (prefix ++ rest) prefix ≡ true
unfolding starts_with
starts_with-append prefix rest = rw (starts_with, strip_prefix-append prefix rest) refl

pub not-starts_with :
    (s prefix : Text) → starts_with s prefix ≡ false → (rest : Text) → s ≢ prefix ++ rest
not-starts_with s prefix h rest e =
    cc (ap (λ t. starts_with t prefix) e, starts_with-append prefix rest, h)

tail_of : (c d : ℕ) (s t : Text) → c ∷ s ≡ d ∷ t → s ≡ t
tail_of c d s t e = cc

later_too :
    (c : ℕ) (s part after : Text)
    → starts_with (c ∷ s) part ≡ false
    → ((before after : Text) → s ≢ before ++ (part ++ after))
    → (before : Text) → c ∷ s ≢ before ++ (part ++ after)
later_too c s part after behind ih [] e =
    cc (ap (λ t. starts_with t part) e, starts_with-append part after, behind)
later_too c s part after behind ih (b ∷ before) e = ih before after (tail_of c b s _ e)

pub not-contains_text :
    (s part : Text)
    → contains_text s part ≡ false
    → (before after : Text) → s ≢ before ++ (part ++ after)
unfolding contains_text
not-contains_text [] [] h [] after e = cc
not-contains_text [] (p ∷ part) h [] after e = cc
not-contains_text [] part h (b ∷ before) after e = cc
not-contains_text (c ∷ s) part h before after e = elim (Bool-cases (starts_with (c ∷ s) part)) [
  | inl front ↦ cc (rw front at h)
  | inr behind ↦
      later_too c s part after behind (not-contains_text s part (rw behind at h)) before e
]
