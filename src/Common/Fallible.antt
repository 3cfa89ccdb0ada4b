-- ===== src/Common/Fallible.antt =====
-- Rust's `Result<T, E>`, with the chaining that its `?` stands for.
use mathlib.Core.Path.{◌≡◌, refl}
use mathlib.Core.Logic.{◌⊎◌, inl, inr}
use mathlib.Core.Option.{Option, none, some}

pub data Result {ℓ μ} (E : Type μ) (T : Type ℓ) : Type (ℓ ⊔ μ) where
  err : E → Result E T
  ok : T → Result E T

module _ {μ} {E : Type μ} where
  infixl 5 ◌>>=◌
  abbrev pub ◌>>=◌ {ℓ κ} : {T : Type ℓ} {U : Type κ} → Result E T → (T → Result E U) → Result E U
  r >>= go_on = elim r [ err x ↦ err x | ok t ↦ go_on t ]

  -- `let Some(x) = o else { return Err(e) }`
  abbrev pub ok_or {ℓ} : {T : Type ℓ} → Option T → E → Result E T
  ok_or o x = elim o [ none ↦ err x | some t ↦ ok t ]

  -- To split on a computed result and keep the equation.
  pub Result-cases {ℓ} :
      {T : Type ℓ} (r : Result E T) → ((t : T) × (r ≡ ok t)) ⊎ ((x : E) × (r ≡ err x))
  Result-cases (err x) = inr (x, refl)
  Result-cases (ok t) = inl (t, refl)

  -- A chain that succeeds has a first step that succeeds, and then its second step does.
  pub chain_succeeds {ℓ κ} :
      {T : Type ℓ} {U : Type κ} (u : U) (go_on : T → Result E U) (r : Result E T)
      → (r >>= go_on) ≡ ok u
      → (t : T) × (go_on t ≡ ok u) × (r ≡ ok t)
  chain_succeeds u go_on (err x) h = cc
  chain_succeeds u go_on (ok t) h = (t, h, refl)
