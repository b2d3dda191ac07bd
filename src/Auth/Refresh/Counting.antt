-- ===== src/Auth/Refresh/Counting.antt =====
-- Counting in lists that are mapped or changed in one place, for the sessions of a refresh.
use frankai_online.Common.{
  ℕ, suc, ◌+◌, ◌≤◌, List, [], ◌∷◌, ◌++◌, map, Bool, true, false, ◌≡◌, sym, ap, ◌∙◌, inl, inr,
  if◌then◌else◌, Bool-cases, arith, some,
}
use frankai_online.Auth.Accounts.{find, update_found}

unfoldable pub count {ℓ} : {A : Type ℓ} → (A → Bool) → List A → ℕ
count p [] = 0
count p (x ∷ xs) = let rest = count p xs in if p x then suc rest else rest

module _ {ℓ} {A : Type ℓ} (p q : A → Bool) (f : A → A) where
  pub count-append : (xs ys : List A) → count p (xs ++ ys) ≡ count p xs + count p ys
  unfolding count
  count-append [] ys = ground arith
  count-append (x ∷ xs) ys = ground (arith, count-append xs ys)

  pub count-map_le :
      ((x : A) → p (f x) ≡ true → p x ≡ true) → (xs : List A) → count p (map f xs) ≤ count p xs
  unfolding count
  count-map_le h [] = ground arith
  count-map_le h (x ∷ xs) = ground (arith, count-map_le h xs, h x)

  pub count-map_lt :
      ((x : A) → p (f x) ≡ true → p x ≡ true)
      → (xs : List A) (s : A) → find q xs ≡ some s
      → p s ≡ true
      → p (f s) ≡ false
      → count p (map f xs) + 1 ≤ count p xs
  unfolding count find
  count-map_lt h [] s e a b = ground arith
  count-map_lt h (x ∷ xs) s e a b = elim (Bool-cases (q x)) [
    | inl c ↦
        let same : x ≡ s = (let e2 : some x ≡ some s = (rw c at e) in cc) in
        let ax : p x ≡ true = ap p same ∙ a in
        let bx : p (f x) ≡ false = ap (λ y. p (f y)) same ∙ b in ground (arith, count-map_le h xs)
    | inr c ↦ let rest = count-map_lt h xs s (rw c at e) a b in ground (arith, h x)
  ]

  pub count-update_found :
      (xs : List A) (s : A)
      → find q xs ≡ some s
      → p s ≡ true
      → p (f s) ≡ false
      → count p (update_found q f xs) + 1 ≤ count p xs
  unfolding count update_found find
  count-update_found [] s e a b = ground arith
  count-update_found (x ∷ xs) s e a b = elim (Bool-cases (q x)) [
    | inl c ↦
        let same : x ≡ s = (let e2 : some x ≡ some s = (rw c at e) in cc) in
        let ax : p x ≡ true = ap p same ∙ a in
        let bx : p (f x) ≡ false = ap (λ y. p (f y)) same ∙ b in ground arith
    | inr c ↦ let rest = count-update_found xs s (rw c at e) a b in ground arith
  ]

  pub count-update_found_le :
      ((x : A) → p (f x) ≡ true → p x ≡ true)
      → (xs : List A) → count p (update_found q f xs) ≤ count p xs
  unfolding count update_found
  count-update_found_le h [] = ground arith
  count-update_found_le h (x ∷ xs) = ground (arith, count-update_found_le h xs, h x)

pub find-append :
    {A : Type 0} (q : A → Bool) (xs ys : List A) (s : A)
    → find q xs ≡ some s
    → find q (xs ++ ys) ≡ some s
unfolding find
find-append q [] ys s e = ground arith
find-append q (x ∷ xs) ys s e = ground (arith, find-append q xs ys s)

pub find-holds : {A : Type 0} (q : A → Bool) (xs : List A) (s : A) → find q xs ≡ some s → q s ≡ true
unfolding find
find-holds q [] s e = ground arith
find-holds q (x ∷ xs) s e = elim (Bool-cases (q x)) [
  | inl c ↦ let same : x ≡ s = (let e2 : some x ≡ some s = (rw c at e) in cc) in ap q (sym same) ∙ c
  | inr c ↦ find-holds q xs s (rw c at e)
]
