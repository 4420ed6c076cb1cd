-- ===== src/Common/Actions.antt =====
-- Code that changes a state and may fail or panic: the state comes back in every case. And what
-- polling a channel gives.
use mathlib.Core.Path.{◌≡◌}
use mathlib.Core.Bool.{Bool, true, false}
use mathlib.Core.Option.{Option, none, some}
use transmitic_core.Common.Tests.{if◌then◌else◌}
use transmitic_core.Common.Outcomes.{Outcome, ok, err, panic}

-- `try_recv` on a channel.
pub data TryRecv (A : Type 0) : Type 0 where
  value : A → TryRecv A
  empty disconnected : TryRecv A

abbrev pub Action : Type 0 → Type 0 → Type 0 → Type 0
Action S E A = S → S × Outcome E A

module _ {S E A : Type 0} where
  abbrev pub pure : A → Action S E A
  pure a s = (s, ok a)

  abbrev pub raise : E → Action S E A
  raise e s = (s, err e)

  abbrev pub gets : (S → A) → Action S E A
  gets f s = (s, ok (f s))

  abbrev pub lift : Outcome E A → Action S E A
  lift r s = (s, r)

  abbrev pub some_or : Option A → E → Action S E A
  some_or none e = raise e
  some_or (some a) e = pure a

-- A change that cannot fail.
abbrev pub modify : {S E : Type 0} → (S → S) → Action S E (Unit {0})
modify f s = (f s, ok tt)

-- What follows a step, from the state and the result of the step.
abbrev pub then_do : {S E A B : Type 0} → S × Outcome E A → (A → Action S E B) → S × Outcome E B
then_do (s, ok a) f = f a s
then_do (s, err e) f = (s, err e)
then_do (s, panic) f = (s, panic)

infixr 5 ◌>>=◌ ◌>>◌
abbrev pub ◌>>=◌ : {S E A B : Type 0} → Action S E A → (A → Action S E B) → Action S E B
◌>>=◌ m f s = then_do (m s) f

abbrev pub ◌>>◌ : {S E B : Type 0} → Action S E (Unit {0}) → Action S E B → Action S E B
m >> k = m >>= λ _. k

-- From every state with `P`, the action leaves a state with `Q`, whatever its result.
abbrev pub Leads : {S E A : Type 0} → (S → Type 0) → (S → Type 0) → Action S E A → Type 0
Leads P Q m = (s : _) → P s → Q (m s).0

pub then_do-Leads :
    {S E A B : Type 0} {Q : S → Type 0} (r : S × Outcome E A) (f : A → Action S E B)
    → Q r.0
    → ((a : A) → Leads Q Q (f a))
    → Q (then_do r f).0
then_do-Leads (s, ok a) f h k = k a s h
then_do-Leads (s, err e) f h k = h
then_do-Leads (s, panic) f h k = h

pub bind-Leads :
    {S E A B : Type 0} {P Q : S → Type 0} (m : Action S E A) (f : A → Action S E B)
    → Leads P Q m
    → ((a : A) → Leads Q Q (f a))
    → Leads P Q (m >>= f)
bind-Leads m f h k s p = then_do-Leads (m s) f (h s p) k

-- If there was no error, the state that is left has `Q`.
abbrev pub Ends : {S E A : Type 0} → (S → Type 0) → S × Outcome E A → Type 0
Ends Q r = (a : _) → r.1 ≡ ok a → Q r.0

pub then_do-Ends :
    {S E A B : Type 0} (Q : S → Type 0) (r : S × Outcome E A) (f : A → Action S E B)
    → ((a : A) (s : S) → Ends Q (f a s))
    → Ends Q (then_do r f)
then_do-Ends Q (s, ok a) f h = h a s
then_do-Ends Q (s, err e) f h = λ b k. cc
then_do-Ends Q (s, panic) f h = λ b k. cc

-- A test.
pub if-Leads :
    {S E A : Type 0} (Q : S → Type 0) (b : Bool) (x y : Action S E A)
    → Leads Q Q x
    → Leads Q Q y
    → Leads Q Q (if b then x else y)
if-Leads Q true x y hx hy = hx
if-Leads Q false x y hx hy = hy

pub some_or-Leads :
    {S E A : Type 0} (Q : S → Type 0) (o : Option A) (e : E) → Leads Q Q (some_or o e)
some_or-Leads Q none e s h = h
some_or-Leads Q (some a) e s h = h
