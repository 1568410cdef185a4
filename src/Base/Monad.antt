-- ===== src/Base/Monad.antt =====
-- What a call of the program comes to, and the state monad over it.
use mathlib.Core.Path.{◌≡◌, refl}
use mathlib.Core.Bool.{Bool, true, false}

-- A call that does not return: an `assert` or a signal that ends the process, `exit`, a wait that
-- nothing ends, or behaviour that C++ leaves undefined.
pub data Stop : Type 0 where
  aborted exited blocked undefined : Stop

pub data Outcome {ℓ} (A : Type ℓ) : Type ℓ where
  returns : A → Outcome A
  stops : Stop → Outcome A

infixl 5 ◌>>=◌ ◌>>◌
abbrev pub M : Type 0 → Type 0 → Type 0
M S A = S → Outcome (A × S)

abbrev pub ◌>>=◌ : {S A B : Type 0} → M S A → (A → M S B) → M S B
◌>>=◌ m f s = elim (m s) [ returns (a, s') ↦ f a s' | stops e ↦ stops e ]

abbrev pub ◌>>◌ : {S B : Type 0} → M S (Unit {0}) → M S B → M S B
m >> k = m >>= λ _. k

abbrev pub pure : {S A : Type 0} → A → M S A
pure a s = returns (a, s)

pub returns-injective {ℓ} : {A : Type ℓ} {a b : A} → returns a ≡ returns b → a ≡ b
returns-injective h = cc

-- A test between two actions.
abbrev pub branch : {S A : Type 0} → Bool → M S A → M S A → M S A
branch true m n s = m s
branch false m n s = n s

-- A sequence that returns has returned from both parts.
pub >>=-eq-returns :
    {S A B : Type 0} (m : M S A) (f : A → M S B) (s : S) {r : B × S}
    → (m >>= f) s ≡ returns r
    → (a : A) × (t : S) × (m s ≡ returns (a, t)) × (f a t ≡ returns r)
>>=-eq-returns {S} {A} {B} m f s {r} h = split (m s) refl h
  where
    split :
        (o : Outcome (A × S))
        → m s ≡ o
        → elim o [ returns (a, s') ↦ f a s' | stops e ↦ stops e ] ≡ returns r
        → (a : A) × (t : S) × (m s ≡ returns (a, t)) × (f a t ≡ returns r)
    split (returns (a, t)) e k = (a, t, e, k)
    split (stops e) _ k = cc

-- A sequence whose first part returns goes on from there.
pub >>=-returns :
    {S A B : Type 0} (m : M S A) (f : A → M S B) (s : S) {a : A} {t : S}
    → m s ≡ returns (a, t)
    → (m >>= f) s ≡ f a t
>>=-returns m f s e = rw (e, ◌>>=◌)
