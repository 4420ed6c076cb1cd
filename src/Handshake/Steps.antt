-- ===== src/Handshake/Steps.antt =====
-- What the steps of src/transmitic_stream.rs leave behind where they succeed.
use mathlib.Core.Path.{◌≡◌, refl, ◌∙◌, sym, ap, subst}
use transmitic_core.Common.{
  ℕ, Bool, true, false, not, Option, List, Outcome, ok, err, panic, if◌then◌else◌, ltb, ◌==◌,
  length, take, drop, from_be_bytes, text_eq, arith,
}
use transmitic_core.Common.Actions.{Action, then_do}
use transmitic_core.Config.{SharedUser}
use transmitic_core.Handshake.{
  TransmiticStream, write_all, read_exact, send_transmitic_header, receive_transmitic_header,
  tran_magic_number, tran_api_major,
}

-- If there was no error, `Q` holds of the state and the value.
abbrev pub Gives : {S E A : Type 0} → (S → A → Type 0) → S × Outcome E A → Type 0
Gives Q (s, ok a) = Q s a
Gives Q (s, err e) = Unit
Gives Q (s, panic) = Unit

pub Gives-holds :
    {S E A : Type 0} (Q : S → A → Type 0) (r : S × Outcome E A) (s : S) (a : A)
    → r ≡ (s, ok a)
    → Gives Q r
    → Q s a
Gives-holds Q r s a e h = subst (Gives Q) e h

pub then_do-Gives :
    {S E A B : Type 0} (P : S → A → Type 0) (Q : S → B → Type 0) (r : S × Outcome E A)
    (f : A → Action S E B)
    → Gives P r
    → ((a : A) (s : S) → P s a → Gives Q (f a s))
    → Gives Q (then_do r f)
then_do-Gives P Q (s, ok a) f h k = k a s h
then_do-Gives P Q (s, err e) f h k = tt
then_do-Gives P Q (s, panic) f h k = tt

-- The same input is left, and users and match are the same.
pub record IsAlike (inbound : List ℕ) (users : List SharedUser) (m : Option SharedUser)
    (t : TransmiticStream) : Type 0 where
  pub left : t.stream.inbound ≡ inbound
  pub same : t.shared_users ≡ users
  pub matched : t.matched_shared_user ≡ m

-- The magic number and the version of the protocol, at the front of the input.
pub record IsHeader (inbound : List ℕ) : Type 0 where
  pub magic : text_eq (take 4 (take 8 inbound)) tran_magic_number ≡ true
  pub major : from_be_bytes (take 2 (drop 4 (take 8 inbound))) ≡ tran_api_major

if-Gives :
    {S E A : Type 0} (Q : S → A → Type 0) (b : Bool) (x y : S × Outcome E A)
    → (b ≡ true → Gives Q x)
    → (b ≡ false → Gives Q y)
    → Gives Q (if b then x else y)
if-Gives Q true x y hx hy = hx refl
if-Gives Q false x y hx hy = hy refl

-- A test between two steps.
choice-Gives :
    {S E A : Type 0} (Q : S → A → Type 0) (b : Bool) (x y : Action S E A) (s : S)
    → (b ≡ true → Gives Q (x s))
    → (b ≡ false → Gives Q (y s))
    → Gives Q ((if b then x else y) s)
choice-Gives Q true x y s hx hy = hx refl
choice-Gives Q false x y s hx hy = hy refl

unnegated : (b : Bool) → not b ≡ false → b ≡ true
unnegated true h = refl
unnegated false h = cc

same_major : (n m : ℕ) → not (n == m) ≡ false → n ≡ m
same_major n m h = ground arith

IsHeader-take :
    (bytes inbound : List ℕ)
    → bytes ≡ take 8 inbound
    → text_eq (take 4 bytes) tran_magic_number ≡ true
    → from_be_bytes (take 2 (drop 4 bytes)) ≡ tran_api_major
    → IsHeader inbound
IsHeader-take bytes inbound e one two = record {
  magic = ap (λ b. text_eq (take 4 b) tran_magic_number) (sym e) ∙ one;
  major = ap (λ b. from_be_bytes (take 2 (drop 4 b))) (sym e) ∙ two;
}

pub write_all-Gives :
    (bytes inbound : List ℕ) (users : List SharedUser) (m : Option SharedUser)
    (t : TransmiticStream)
    → IsAlike inbound users m t
    → Gives (λ s _. IsAlike inbound users m s) (write_all bytes t)
unfolding write_all
write_all-Gives bytes inbound users m t h =
    if-Gives (λ s _. IsAlike inbound users m s) t.stream.broken _ _ (λ _. tt)
      (λ _. record { left = h.left; same = h.same; matched = h.matched })

pub read_exact-Gives :
    (size : ℕ) (inbound : List ℕ) (users : List SharedUser) (m : Option SharedUser)
    (t : TransmiticStream)
    → IsAlike inbound users m t
    → Gives
        (λ s bytes. IsAlike (drop size inbound) users m s × (bytes ≡ take size inbound))
        (read_exact size t)
unfolding read_exact
read_exact-Gives size inbound users m t h =
    if-Gives (λ s bytes. IsAlike (drop size inbound) users m s × (bytes ≡ take size inbound))
      (ltb (length t.stream.inbound) size) _ _ (λ _. tt)
      (λ _. (
        record { left = ap (drop size) h.left; same = h.same; matched = h.matched },
        ap (take size) h.left,
      ))

pub send_transmitic_header-Gives :
    (inbound : List ℕ) (users : List SharedUser) (m : Option SharedUser) (t : TransmiticStream)
    → IsAlike inbound users m t
    → Gives (λ s _. IsAlike inbound users m s) (send_transmitic_header t)
unfolding send_transmitic_header
send_transmitic_header-Gives inbound users m t h = write_all-Gives _ inbound users m t h

pub receive_transmitic_header-Gives :
    (inbound : List ℕ) (users : List SharedUser) (m : Option SharedUser) (t : TransmiticStream)
    → IsAlike inbound users m t
    → Gives
        (λ s _. IsAlike (drop 8 inbound) users m s × IsHeader inbound)
        (receive_transmitic_header t)
unfolding receive_transmitic_header
receive_transmitic_header-Gives inbound users m t h =
    then_do-Gives (λ s bytes. IsAlike (drop 8 inbound) users m s × (bytes ≡ take 8 inbound)) Q
      (read_exact 8 t) _ (read_exact-Gives 8 inbound users m t h)
      (λ bytes s k.
        choice-Gives Q (not (text_eq (take 4 bytes) tran_magic_number)) _ _ s (λ _. tt)
          (λ one.
            choice-Gives Q (not (from_be_bytes (take 2 (drop 4 bytes)) == tran_api_major)) _ _ s
              (λ _. tt)
              (λ two.
                (k.0, IsHeader-take bytes inbound k.1 (unnegated _ one) (same_major _ _ two)))))
  where
    Q : TransmiticStream → Unit {0} → Type 0
    Q s u = IsAlike (drop 8 inbound) users m s × IsHeader inbound
