-- ===== src/Wrappers/Tables.antt =====
-- Tables over the descriptors of processes: what src/wrappers.c and the C library keep for each.
use mt_hvac.Base.{ℕ, ◌≡◌, ◌≢◌, sym, ◌∙◌, ◌⊎◌, inl, inr, ap, ℤ, nat_key, int_key}
use mathlib.Core.Path.{fun_ext}
use mathlib.Core.Logic.{ite, if_pos, if_neg}

module _ {ℓ} {A : Type ℓ} where
  unfoldable pub put : (ℕ → ℤ → A) → ℕ → ℤ → A → ℕ → ℤ → A
  put t i fd x j d = ite (nat_key.dec i j) (ite (int_key.dec fd d) x (t j d)) (t j d)

  pub put_at : (t : ℕ → ℤ → A) (i j : ℕ) (fd d : ℤ) (x : A) → i ≡ j → fd ≡ d → put t i fd x j d ≡ x
  unfolding put
  put_at t i j fd d x same same' =
      if_pos (nat_key.dec i j) same _ (t j d) ∙ if_pos (int_key.dec fd d) same' x (t j d)

  pub put_ne :
      (t : ℕ → ℤ → A) (i j : ℕ) (fd d : ℤ) (x : A) → (i ≡ j → fd ≢ d) → put t i fd x j d ≡ t j d
  unfolding put
  put_ne t i j fd d x apart = elim (nat_key.dec i j) [
    | yes same ↦
        if_pos (nat_key.dec i j) same _ (t j d) ∙ if_neg (int_key.dec fd d) (apart same) x (t j d)
    | no other ↦ if_neg (nat_key.dec i j) other _ (t j d)
  ]

-- Two descriptors are one, or are apart.
pub same_or_apart : (i j : ℕ) (fd d : ℤ) → ((i ≡ j) × (fd ≡ d)) ⊎ (i ≡ j → fd ≢ d)
same_or_apart i j fd d = elim (nat_key.dec i j) [
  | yes same ↦ elim (int_key.dec fd d) [
    | yes same' ↦ inl (same, same')
    | no other ↦ inr (λ e. other)
  ]
  | no other ↦ inr (λ e. absurd (other e))
]

-- A table with what it has already.
pub put_same {ℓ} :
    {A : Type ℓ} (t : ℕ → ℤ → A) (i : ℕ) (fd : ℤ) (x : A) → t i fd ≡ x → put t i fd x ≡ t
put_same {A} t i fd x e = fun_ext (λ j. fun_ext (λ d. at j d))
  where
    at : (j : ℕ) (d : ℤ) → put t i fd x j d ≡ t j d
    at j d = elim (same_or_apart i j fd d) [
      | inl (e₁, e₂) ↦ put_at t i j fd d x e₁ e₂ ∙ sym e ∙ ap (λ k. t k fd) e₁ ∙ ap (t j) e₂
      | inr apart ↦ put_ne t i j fd d x apart
    ]
