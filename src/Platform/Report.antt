-- ===== src/Platform/Report.antt =====
-- The list of errors that the checks of lib/platform/validation.ts push to, as the second part of
-- each check's result: the errors that it adds, in order.
use frankai_online.Common.{Str, List, [], ◌∷◌, ◌++◌, Bool, ◌≡◌, refl, if◌then◌else◌}

abbrev pub Report : Type 0 → Type 0
Report A = A × List Str

infixl 5 ◌>>=◌ ◌>>◌
abbrev pub ◌>>=◌ : {A B : Type 0} → Report A → (A → Report B) → Report B
m >>= f = ((f m.0).0, m.1 ++ (f m.0).1)

abbrev pub ◌>>◌ : {B : Type 0} → Report (Unit {0}) → Report B → Report B
m >> k = m >>= λ _. k

abbrev pub pure : {A : Type 0} → A → Report A
pure a = (a, [])

-- `errors.push(message)` unless the test holds
abbrev pub expect : Bool → Str → Report (Unit {0})
expect ok message = (tt, if ok then [] else message ∷ [])

-- Two lists of errors are empty if they are so together.
pub append-eq-nil : (xs ys : List Str) → xs ++ ys ≡ [] → (xs ≡ []) × (ys ≡ [])
append-eq-nil [] ys h = (refl, h)
append-eq-nil (x ∷ xs) ys h = cc
