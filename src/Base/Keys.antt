-- ===== src/Base/Keys.antt =====
-- Keys with decidable equality, and C++ maps as functions from keys.
use Prim.Native.Nat.{ℕ}
use mathlib.Core.Logic.{◌≢◌, ite, if_pos, if_neg}
use mathlib.Core.Path.{◌≡◌, refl}
use mathlib.Core.Bool.{Bool, true, false}
use mathlib.Core.Option.{Option, none, some}
use mathlib.Core.List.{List-discrete}
use native.Mathlib.Decide.{ℕ_discrete}
use mt_hvac.Base.Lists.{Text}
use mt_hvac.Base.Int.{ℤ, ℤ-discrete}

pub record Key {ℓ} (A : Type ℓ) : Type ℓ where
  pub dec : Discrete A

instance unfoldable pub nat_key : Key ℕ
nat_key = record { dec = ℕ_discrete }

instance unfoldable pub int_key : Key ℤ
int_key = record { dec = ℤ-discrete }

instance unfoldable pub text_key : Key Text
text_key = record { dec = List-discrete ℕ_discrete }

module _ {ℓ κ} {K : Type ℓ} {V : Type κ} ⦃e : Key K⦄ where
  -- `m[k] = v`
  abbrev pub update : (K → Option V) → K → V → K → Option V
  update m k v j = ite (e.dec k j) (some v) (m j)

  -- `m.erase(k)`
  abbrev pub erase : (K → Option V) → K → K → Option V
  erase m k j = ite (e.dec k j) none (m j)

  pub update_self : (m : K → Option V) (k : K) (v : V) → update m k v k ≡ some v
  update_self m k v = if_pos (e.dec k k) refl (some v) (m k)

  pub update_ne : (m : K → Option V) (k j : K) (v : V) → k ≢ j → update m k v j ≡ m j
  update_ne m k j v h = if_neg (e.dec k j) h (some v) (m j)

  pub erase_self : (m : K → Option V) (k : K) → erase m k k ≡ none
  erase_self m k = if_pos (e.dec k k) refl none (m k)

  pub erase_ne : (m : K → Option V) (k j : K) → k ≢ j → erase m k j ≡ m j
  erase_ne m k j h = if_neg (e.dec k j) h none (m j)

-- The empty map.
abbrev pub nothing {ℓ κ} : {K : Type ℓ} {V : Type κ} → K → Option V
nothing k = none

-- `a == b`
infix 50 ◌=?◌
abbrev pub ◌=?◌ {ℓ} : {A : Type ℓ} ⦃e : Key A⦄ → A → A → Bool
◌=?◌ ⦃e⦄ a b = ite (e.dec a b) true false
