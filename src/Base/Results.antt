-- ===== src/Base/Results.antt =====
-- What a C function does: it returns with a new state, returns an error code with the state that it
-- leaves, or does something that C does not define (a bad access, a failed `assert`).
use mathlib.Core.Path.{◌≡◌, refl, ap}
use mathlib.Core.Logic.{◌≢◌}
use mathlib.Core.Option.{Option, none, some}

-- The `ERR_` codes of opendax.h that the server and its clients return.
pub data Error : Type 0 where
  generic no_socket too_big arg notfound msg_send msg_recv tag_bad tag_dupl alloc msg_bad : Error
  dupl illegal empty badtype auth deleted readonly writeonly timeout disconnected : Error

pub data Outcome (S A : Type 0) : Type 0 where
  ok : A → S → Outcome S A
  err : Error → S → Outcome S A
  fault : Outcome S A

infixl 5 ◌>>=◌ ◌>>◌
abbrev pub ◌>>=◌ : {S A B : Type 0} → (S → Outcome S A) → (A → S → Outcome S B) → S → Outcome S B
◌>>=◌ m f s = elim (m s) [ ok a s' ↦ f a s' | err e s' ↦ err e s' | fault ↦ fault ]

abbrev pub ◌>>◌ : {S B : Type 0} → (S → Outcome S (Unit {0})) → (S → Outcome S B) → S → Outcome S B
◌>>◌ m k s = elim (m s) [ ok a s' ↦ k s' | err e s' ↦ err e s' | fault ↦ fault ]

-- A call whose error code the caller drops.
abbrev pub attempt : {S A : Type 0} → (S → Outcome S A) → S → Outcome S (Unit {0})
attempt m s = elim (m s) [ ok a s' ↦ ok tt s' | err e s' ↦ ok tt s' | fault ↦ fault ]

-- The same for a function that changes no state.
pub data Result (A : Type 0) : Type 0 where
  ret : A → Result A
  fail : Error → Result A
  crash : Result A

abbrev pub and_then : {A B : Type 0} → Result A → (A → Result B) → Result B
and_then (ret a) f = f a
and_then (fail e) f = fail e
and_then crash f = crash

abbrev pub run : {S A : Type 0} → Result A → S → Outcome S A
run (ret a) s = ok a s
run (fail e) s = err e s
run crash s = fault

pub and_then-ne-ret :
    {A B : Type 0} (r : Result A) (f : A → Result B) (b : B)
    → ((a : A) → f a ≢ ret b)
    → and_then r f ≢ ret b
and_then-ne-ret (ret a) f b h = h a
and_then-ne-ret (fail e) f b h = λ p. cc
and_then-ne-ret crash f b h = λ p. cc

pub and_then-ret :
    {A B : Type 0} (r : Result A) (f : A → Result B) (b : B)
    → and_then r f ≡ ret b
    → (a : A) × (r ≡ ret a) × (f a ≡ ret b)
and_then-ret (ret a) f b h = (a, refl, h)
and_then-ret (fail e) f b h = cc
and_then-ret crash f b h = cc

abbrev pub or_fail : {A : Type 0} → Option A → Error → Result A
or_fail none e = fail e
or_fail (some a) e = ret a

-- A check that returns an error code, or `none` for 0.
abbrev pub check : Option Error → Result (Unit {0})
check none = ret tt
check (some e) = fail e

pub or_fail-ret : {A : Type 0} (o : Option A) (e : Error) (a : A) → or_fail o e ≡ ret a → o ≡ some a
or_fail-ret none e a h = cc
or_fail-ret (some b) e a h = cc

abbrev pub or_crash : {A : Type 0} → Option A → Result A
or_crash none = crash
or_crash (some a) = ret a

module _ {S A B : Type 0} where
  -- A chain that returns has returned at its first step.
  pub >>=-ok :
      (m : S → Outcome S A) (f : A → S → Outcome S B) (s : S) (b : B) (s'' : S)
      → (m >>= f) s ≡ ok b s''
      → (a : A) × (s' : S) × (m s ≡ ok a s') × (f a s' ≡ ok b s'')
  >>=-ok m f s b s'' h = go (m s) h
    where
      go :
          (o : Outcome S A)
          → elim o [ ok a s' ↦ f a s' | err e s' ↦ err e s' | fault ↦ fault ] ≡ ok b s''
          → (a : A) × (s' : S) × (o ≡ ok a s') × (f a s' ≡ ok b s'')
      go (ok a s') p = (a, s', refl, p)
      go (err e s') p = cc
      go fault p = cc

module _ {S B : Type 0} where
  pub >>-ok :
      (m : S → Outcome S (Unit {0})) (k : S → Outcome S B) (s : S) (b : B) (s'' : S)
      → (m >> k) s ≡ ok b s''
      → (s' : S) × (m s ≡ ok tt s') × (k s' ≡ ok b s'')
  >>-ok m k s b s'' h = go (m s) h
    where
      go :
          (o : Outcome S (Unit {0}))
          → elim o [ ok a s' ↦ k s' | err e s' ↦ err e s' | fault ↦ fault ] ≡ ok b s''
          → (s' : S) × (o ≡ ok tt s') × (k s' ≡ ok b s'')
      go (ok tt s') p = (s', refl, p)
      go (err e s') p = cc
      go fault p = cc

module _ {S A : Type 0} where
  pub run-ok : (r : Result A) (s : S) (a : A) (s' : S) → run r s ≡ ok a s' → (r ≡ ret a) × (s ≡ s')
  run-ok (ret b) s a s' h = (cc, cc)
  run-ok (fail e) s a s' h = cc
  run-ok crash s a s' h = cc

pub or_crash-ret : {A : Type 0} (o : Option A) (a : A) → or_crash o ≡ ret a → o ≡ some a
or_crash-ret none a h = cc
or_crash-ret (some b) a h = cc

module _ {S A B : Type 0} where
  pub >>=-of :
      (m : S → Outcome S A) (f : A → S → Outcome S B) (s s' : S) (a : A)
      → m s ≡ ok a s'
      → (m >>= f) s ≡ f a s'
  >>=-of m f s s' a e =
      ap (λ o. elim o [ ok a s' ↦ f a s' | err e s' ↦ err e s' | fault ↦ fault ]) e

module _ {S B : Type 0} where
  pub >>-of :
      (m : S → Outcome S (Unit {0})) (k : S → Outcome S B) (s s' : S)
      → m s ≡ ok tt s'
      → (m >> k) s ≡ k s'
  >>-of m k s s' e = ap (λ o. elim o [ ok a s' ↦ k s' | err e s' ↦ err e s' | fault ↦ fault ]) e
