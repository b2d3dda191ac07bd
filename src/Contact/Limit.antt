-- ===== src/Contact/Limit.antt =====
-- app/api/contact: the rate limit over a run of requests.
use frankai_online.Common.{
  ℕ, suc, ◌+◌, ◌-◌, ◌≤◌, ◌<◌, Str, List, [], ◌∷◌, Bool, true, false, ◌&&◌, ◌≡◌, ◌⊎◌, refl, ◌∙◌, inl,
  inr, leb, if◌then◌else◌, ◌===◌, ===_iff, ===_refl, All, Bool-cases, arith, Option, none, some,
}
use frankai_online.Contact.{
  Bucket, Buckets, bucket_of, set_bucket, next_bucket, rate_limit, window_ms,
  max_requests_per_window,
}

bucket_of-set_bucket :
    (key : Str) (b : Bucket) (bs : Buckets) → bucket_of key (set_bucket key b bs) ≡ some b
unfolding bucket_of set_bucket
bucket_of-set_bucket key b [] = rw (===_refl key) refl
bucket_of-set_bucket key b ((k, c) ∷ bs) = elim (Bool-cases (k === key)) [
  | inl e ↦ ground arith
  | inr e ↦ ground (arith, bucket_of-set_bucket key b bs)
]

bucket_of-set_other :
    (key other : Str) (b : Bucket) (bs : Buckets)
    → (other === key) ≡ false
    → bucket_of key (set_bucket other b bs) ≡ bucket_of key bs
unfolding bucket_of set_bucket
bucket_of-set_other key other b [] h = ground arith
bucket_of-set_other key other b ((k, c) ∷ bs) h =
    ground (arith, bucket_of-set_other key other b bs, ===_iff k other)

-- The answers to requests at given times from given connections.
pub run : List (ℕ × Str) → Buckets → List (Str × Bool)
run [] bs = []
run ((now, key) ∷ rs) bs =
    let r = rate_limit now key bs in let rest = run rs r.0 in (key, r.1) ∷ rest

-- How many of the answers let a request of the connection through.
unfoldable pub allowed_for : Str → List (Str × Bool) → ℕ
allowed_for key [] = 0
allowed_for key ((k, ok) ∷ rs) = let n = allowed_for key rs in if k === key && ok then suc n else n

abbrev AllBefore : ℕ → List (ℕ × Str) → Type 0
AllBefore t rs = All (λ (r : ℕ × Str). r.0 < t) rs

-- What a bucket still lets through before its window ends.
abbrev left : Bucket → ℕ
left b = 5 - b.count

run-allowed :
    (key : Str) (b : Bucket) (rs : List (ℕ × Str)) (bs : Buckets)
    → bucket_of key bs ≡ some b
    → AllBefore b.reset_at rs
    → allowed_for key (run rs bs) ≤ left b
unfolding run allowed_for rate_limit next_bucket
run-allowed key b [] bs e h = ground arith
run-allowed key b ((now, k) ∷ rs) bs e (early, h) = elim (Bool-cases (k === key)) [
  | inr o ↦
      let rest =
        run-allowed key b rs (rate_limit now k bs).0 (bucket_of-set_other key k _ bs o ∙ e) h in
      ground arith
  | inl o ↦
      let same : k ≡ key = (===_iff k key).0 o in
      let c : Bucket = record b { count = b.count + 1 } in
      let found : bucket_of k bs ≡ some b = rw same e in
      let step : next_bucket now (bucket_of k bs) ≡ (c, leb (b.count + 1) max_requests_per_window) =
        rw found (ground arith) in
      let kept : bucket_of key (set_bucket k c bs) ≡ some c =
        rw same (bucket_of-set_bucket key c bs) in
      let rest = run-allowed key c rs (set_bucket k c bs) kept h in rw o (rw step (ground arith))
]

-- No window of the connection is open.
abbrev IsClosed : ℕ → Option Bucket → Type 0
IsClosed now o = (o ≡ none) ⊎ ((b : Bucket) × (o ≡ some b) × (b.reset_at ≤ now))

next_bucket-IsClosed :
    (now : ℕ) (o : Option Bucket)
    → IsClosed now o
    → next_bucket now o ≡ (record { count = 1; reset_at = now + window_ms }, true)
unfolding next_bucket
next_bucket-IsClosed now none c = refl
next_bucket-IsClosed now (some b) c = ground arith

-- When a connection with no open window makes a request, then of that request and of any later
-- ones, from any connections, before ten minutes have passed, at most five of the connection's
-- own are let through.
pub rate_limit-window :
    (key : Str) (now : ℕ) (rs : List (ℕ × Str)) (bs : Buckets)
    → IsClosed now (bucket_of key bs)
    → AllBefore (now + window_ms) rs
    → allowed_for key (run ((now, key) ∷ rs) bs) ≤ max_requests_per_window
unfolding run allowed_for rate_limit
rate_limit-window key now rs bs c h =
    let b : Bucket = record { count = 1; reset_at = now + window_ms } in
    let step = next_bucket-IsClosed now (bucket_of key bs) c in
    let rest = run-allowed key b rs (set_bucket key b bs) (bucket_of-set_bucket key b bs) h in
    rw (===_refl key) (rw step (ground arith))
