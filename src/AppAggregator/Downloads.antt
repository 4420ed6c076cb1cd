-- ===== src/AppAggregator/Downloads.antt =====
-- What the handled messages do to the entries of the two maps of src/app_aggregator.rs.
use transmitic_core.Common.{
  ◌≡◌, sym, subst, false, none, some, List, [], ◌++◌, append-nil, if◌then◌else◌, Bool-cases,
  Option-cases, inl, inr, get, get-insert_same, get-insert_other, text_eq, text_eq_refl,
  text_eq_iff,
}
use transmitic_core.AppAggregator.{Text, update}

-- A part of an entry, empty where there is no entry.
unfoldable pub view {ℓ} : {V : Type ℓ} {B : Type 0} → (V → List B) → List (Text × V) → Text → List B
view part m nickname = elim (get m nickname) [ some h ↦ part h | none ↦ [] ]

get-update_same {ℓ} :
    {V : Type ℓ} (m : List (Text × V)) (k : Text) (change : V → V) (fresh : V)
    → get (update m k change fresh) k ≡ some (elim (get m k) [ some h ↦ change h | none ↦ fresh ])
unfolding update
get-update_same m k change fresh = elim (Option-cases (get m k)) [
  | inl missing ↦ rw (update, missing) (get-insert_same m k fresh)
  | inr (h, there) ↦ rw (update, there) (get-insert_same m k (change h))
]

pub get-update_other {ℓ} :
    {V : Type ℓ} (m : List (Text × V)) (k j : Text) (change : V → V) (fresh : V)
    → text_eq k j ≡ false
    → get (update m k change fresh) j ≡ get m j
unfolding update
get-update_other m k j change fresh other = elim (Option-cases (get m k)) [
  | inl missing ↦ rw (update, missing) (get-insert_other m k j fresh other)
  | inr (h, there) ↦ rw (update, there) (get-insert_other m k j (change h) other)
]

-- Where the part grows by `extra` in an old entry and is `extra` in a new one.
pub view-update {ℓ} :
    {V : Type ℓ} {B : Type 0} (part : V → List B) (m : List (Text × V)) (k j : Text)
    (change : V → V) (fresh : V) (extra : List B)
    → ((h : V) → part (change h) ≡ part h ++ extra)
    → part fresh ≡ extra
    → view part (update m k change fresh) j ≡ view part m j ++ (if text_eq k j then extra else [])
unfolding view
view-update part m k j change fresh extra grows starts = elim (Bool-cases (text_eq k j)) [
  | inr other ↦
      rw (view, other, get-update_other m k j change fresh other)
        (sym (append-nil (elim (get m j) [ some h ↦ part h | none ↦ [] ])))
  | inl same ↦
      subst
        (λ j.
          view part (update m k change fresh) j
          ≡ view part m j ++ (if text_eq k j then extra else []))
        ((text_eq_iff k j).0 same) here
]
  where
    here :
        view part (update m k change fresh) k ≡ view part m k ++ (if text_eq k k then extra else [])
    here = elim (Option-cases (get m k)) [
      | inl missing ↦ rw (view, get-update_same m k change fresh, text_eq_refl k, missing) starts
      | inr (h, there) ↦
          rw (view, get-update_same m k change fresh, text_eq_refl k, there) (grows h)
    ]
