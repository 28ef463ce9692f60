-- ===== src/Common/Outcome.antt =====
-- How a piece of C++ ends: normally, with an exception that a handler of the program may catch, or
-- with an access outside an object, after which the language promises nothing.
use orekacxx.Common.{◌≡◌, refl, ◌⊎◌, inl, inr, Option, none, some}

pub data Outcome {ℓ} (A : Type ℓ) : Type ℓ where
  done : A → Outcome A
  throws : Outcome A
  faults : Outcome A

infixl 5 ◌>>=◌
abbrev pub ◌>>=◌ {ℓ κ} : {A : Type ℓ} {B : Type κ} → Outcome A → (A → Outcome B) → Outcome B
done a >>= f = f a
throws >>= f = throws
faults >>= f = faults

-- `try { ... } catch (const std::exception&) { ... }`; a fault is not caught.
abbrev pub catch {ℓ} : {A : Type ℓ} → Outcome A → A → Outcome A
catch (done a) handler = done a
catch throws handler = done handler
catch faults handler = faults

pub >>=-eq-done {ℓ κ} :
    {A : Type ℓ} {B : Type κ} (m : Outcome A) (f : A → Outcome B) {b : B}
    → (m >>= f) ≡ done b
    → (a : A) × (m ≡ done a) × (f a ≡ done b)
>>=-eq-done (done a) f h = (a, refl, h)
>>=-eq-done throws f h = cc
>>=-eq-done faults f h = cc

pub catch-eq-done {ℓ} :
    {A : Type ℓ} (m : Outcome A) (handler : A) {b : A}
    → catch m handler ≡ done b
    → (m ≡ done b) ⊎ ((m ≡ throws) × (handler ≡ b))
catch-eq-done (done a) handler h = inl h
catch-eq-done throws handler h = inr (refl, cc)
catch-eq-done faults handler h = cc

pub done-injective {ℓ} : {A : Type ℓ} {a b : A} → done a ≡ done b → a ≡ b
done-injective h = cc

-- What follows a step that may not end, which is `none`.
abbrev pub and_then {ℓ κ} :
    {A : Type ℓ} {B : Type κ} → Outcome (Option A) → (A → Outcome (Option B)) → Outcome (Option B)
and_then (done none) f = done none
and_then (done (some a)) f = f a
and_then throws f = throws
and_then faults f = faults

pub and_then-eq-some {ℓ κ} :
    {A : Type ℓ} {B : Type κ} (m : Outcome (Option A)) (f : A → Outcome (Option B)) {b : B}
    → and_then m f ≡ done (some b)
    → (a : A) × (m ≡ done (some a)) × (f a ≡ done (some b))
and_then-eq-some (done none) f h = cc
and_then-eq-some (done (some a)) f h = (a, refl, h)
and_then-eq-some throws f h = cc
and_then-eq-some faults f h = cc
