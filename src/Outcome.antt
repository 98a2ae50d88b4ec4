-- ===== src/Outcome.antt =====
-- How a call of the kernel can end: it returns, it accesses memory that it may not (a null pointer,
-- or outside an array), or it does not return within the fuel or the events that it was given.
use obos_old.Prelude.{◌≡◌, refl, ◌⊎◌, inl, inr}

pub data Outcome {ℓ} (A : Type ℓ) : Type ℓ where
  done : A → Outcome A
  fault : Outcome A
  hang : Outcome A

infixl 5 ◌>>=◌
abbrev pub ◌>>=◌ {ℓ κ} : {A : Type ℓ} {B : Type κ} → Outcome A → (A → Outcome B) → Outcome B
done a >>= f = f a
fault >>= f = fault
hang >>= f = hang

-- To split on a computed outcome and keep the equation.
pub Outcome-cases {ℓ} :
    {A : Type ℓ} (m : Outcome A) → ((a : A) × (m ≡ done a)) ⊎ ((m ≡ fault) ⊎ (m ≡ hang))
Outcome-cases (done a) = inl (a, refl)
Outcome-cases fault = inr (inl refl)
Outcome-cases hang = inr (inr refl)

-- The parts of a chain that returned.
pub >>=-eq-done {ℓ κ} :
    {A : Type ℓ} {B : Type κ} (m : Outcome A) (f : A → Outcome B) (b : B)
    → (m >>= f) ≡ done b
    → (a : A) × (m ≡ done a) × (f a ≡ done b)
>>=-eq-done (done a) f b h = (a, refl, h)
>>=-eq-done fault f b h = cc
>>=-eq-done hang f b h = cc

pub done-eq-done {ℓ} : {A : Type ℓ} (a b : A) → done a ≡ done b → a ≡ b
done-eq-done a b e = cc e
