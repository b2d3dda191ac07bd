-- ===== src/Admin/Distinct.antt =====
-- Rows told apart by their ids, and counts under changes of a table.
use frankai_online.Common.{
  ◌≤◌, Str, List, [], ◌∷◌, map, Bool, true, false, ◌≡◌, sym, ap, ◌∙◌, inl, inr, filter, ◌===◌,
  ===_iff, All, All-filter_of_All, Bool-cases, if_intro, arith, some, subst,
}
use frankai_online.Auth.Accounts.{User, find}
use frankai_online.Auth.Refresh.{has_id}
use frankai_online.Auth.Refresh.Counting.{count}

-- No two rows have the same id.
abbrev pub IsKeyed : List User → Type 0
IsKeyed [] = Unit
IsKeyed (u ∷ us) = All (λ v. has_id u.id v ≡ false) us × IsKeyed us

pub All-imply {ℓ κ} :
    {A : Type ℓ} {P Q : A → Type κ} → ((x : A) → P x → Q x) → (xs : List A) → All P xs → All Q xs
All-imply h [] a = tt
All-imply h (x ∷ xs) (p, a) = (h x p, All-imply h xs a)

same_of_has_id :
    (i : Str) (s : User) (us : List User)
    → has_id i s ≡ true
    → All (λ v. has_id s.id v ≡ false) us
    → All (λ v. has_id i v ≡ true → v ≡ s) us
same_of_has_id i s us e a =
    All-imply
      (λ v differs same.
        let ei : s.id ≡ i = (===_iff s.id i).0 e in
        let ev : v.id ≡ i = (===_iff v.id i).0 same in
        absurd (let d : has_id s.id v ≡ true = (===_iff v.id s.id).1 (ev ∙ sym ei) in ground arith))
      us a

-- The row that a query by id gives is the only one of its id.
pub IsKeyed-find :
    (i : Str) (us : List User) (s : User)
    → IsKeyed us
    → find (has_id i) us ≡ some s
    → All (λ v. has_id i v ≡ true → v ≡ s) us
unfolding find
IsKeyed-find i [] s k e = tt
IsKeyed-find i (u ∷ us) s (a, k) e = elim (Bool-cases (has_id i u)) [
  | inl c ↦
      let same : u ≡ s = (let e2 : some u ≡ some s = (rw c at e) in cc) in
      (
        λ _. same,
        subst (λ (w : User). All (λ v. has_id i v ≡ true → v ≡ w) us) same
            (same_of_has_id i u us c a),
      )
  | inr c ↦ (λ d. absurd (ground arith), IsKeyed-find i us s k (rw c at e))
]

All-has_id-map :
    (i : Str) (f : User → User)
    → ((u : User) → (f u).id ≡ u.id)
    → (us : List User) → All (λ v. has_id i v ≡ false) us
    → All (λ v. has_id i v ≡ false) (map f us)
All-has_id-map i f h [] a = tt
All-has_id-map i f h (u ∷ us) (p, a) = (ap (λ j. j === i) (h u) ∙ p, All-has_id-map i f h us a)

pub map-IsKeyed :
    (f : User → User)
    → ((u : User) → (f u).id ≡ u.id)
    → (us : List User) → IsKeyed us
    → IsKeyed (map f us)
map-IsKeyed f h [] k = tt
map-IsKeyed f h (u ∷ us) (a, k) = (
  subst (λ j. All (λ v. has_id j v ≡ false) (map f us)) (sym (h u)) (All-has_id-map u.id f h us a),
  map-IsKeyed f h us k,
)

pub filter-IsKeyed : (p : User → Bool) (us : List User) → IsKeyed us → IsKeyed (filter p us)
filter-IsKeyed p [] k = tt
filter-IsKeyed p (u ∷ us) (a, k) =
    if_intro IsKeyed (p u)
      (All-filter_of_All (λ v. has_id u.id v ≡ false) p us a, filter-IsKeyed p us k)
      (filter-IsKeyed p us k)

module _ {A : Type 0} (p p' : A → Bool) where
  pub count_mono :
      (f : A → A) (xs : List A)
      → All (λ x. p x ≡ true → p' (f x) ≡ true) xs
      → count p xs ≤ count p' (map f xs)
  unfolding count
  count_mono f [] h = ground arith
  count_mono f (x ∷ xs) (h, a) = let rest = count_mono f xs a in ground arith

  pub count_mono_id :
      ((x : A) → p x ≡ true → p' x ≡ true) → (xs : List A) → count p xs ≤ count p' xs
  unfolding count
  count_mono_id h [] = ground arith
  count_mono_id h (x ∷ xs) = let rest = count_mono_id h xs in let k = h x in ground arith

  pub count_mono_filter :
      (q : A → Bool) (xs : List A)
      → All (λ x. p x ≡ true → (q x ≡ true) × (p' x ≡ true)) xs
      → count p xs ≤ count p' (filter q xs)
  unfolding count
  count_mono_filter q [] h = ground arith
  count_mono_filter q (x ∷ xs) (h, a) =
      let rest = count_mono_filter q xs a in
      elim (Bool-cases (p x)) [
        | inl e ↦ let k = h e in let e1 = k.0 in let e2 = k.1 in (rw e1 (ground arith))
        | inr e ↦ elim (Bool-cases (q x)) [
          | inl d ↦ (rw d (ground arith))
          | inr d ↦ (rw d (ground arith))
        ]
      ]
