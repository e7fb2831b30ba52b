-- ===== src/Serve/RateLimiter/Sweep.antt =====
-- The sweep of idle buckets in internal/serve/auth.go gives nobody a token.
use herdr_expose.Prelude.Lists.{length}
use herdr_expose.Prelude.Map.{Map, Unique, lookup}
use herdr_expose.Prelude.{
  ℕ, suc, ◌-◌, ◌*◌, ◌≤◌, ◌≡◌, refl, ◌∙◌, ◌⊎◌, inl, inr, true, ◌||◌, none, some, [], ◌∷◌, arith,
}
use herdr_expose.Prelude.Tests.{if_split, is_some-false, ltb, leb, Bool-cases}
use herdr_expose.Prelude.Text.{text_eq_iff, text_eq, Text}
use herdr_expose.Serve.RateLimiter.{
  rl_gc_interval, Bucket, RateLimiter, capacity, sweep, trim, refilled, gc_locked, maybe_gc,
}

-- What the limiter is built to satisfy: a bucket idle for the whole period has refilled, and no
-- bucket is dated later than now.
pub record IsSane (l : RateLimiter) (now : ℕ) : Type 0 where
  pub refills : capacity l ≤ l.idle_ttl * l.rate_num
  pub dated : (k : Text) (b : Bucket) → lookup k l.buckets ≡ some b → b.last ≤ now
  pub unique : Unique l.buckets

lookup-sweep :
    (ttl now : ℕ) (k : Text) (m : Map Bucket)
    → Unique m
    → (lookup k (sweep ttl now m) ≡ lookup k m)
      ⊎ ((lookup k (sweep ttl now m) ≡ none)
          × ((b : Bucket) × (lookup k m ≡ some b) × (ttl ≤ now - b.last)))
unfolding sweep lookup
lookup-sweep ttl now k [] u = inl refl
lookup-sweep ttl now k ((j, b) ∷ m) u =
    let ih = lookup-sweep ttl now k m u.1 in
    elim (Bool-cases (text_eq j k)) [
      | inl same ↦
          let jk : j ≡ k = (text_eq_iff j k).0 same in
          let gone : lookup k m ≡ none = rw jk at (is_some-false (lookup j m) u.0) in
          elim (Bool-cases (leb ttl (now - b.last))) [
            | inl old ↦
                rw (old, same)
                  (inr (elim ih [ inl e ↦ e ∙ gone | inr h ↦ h.0 ], (b, refl, ground arith)))
            | inr young ↦ rw (young, same) (inl refl)
          ]
      | inr other ↦ elim (Bool-cases (leb ttl (now - b.last))) [
        | inl old ↦ rw (old, other) ih
        | inr young ↦ rw (young, other) ih
      ]
    ]

-- A sweep of the idle buckets changes no key's tokens: a bucket that goes had refilled to the full
-- burst, which is what a key without a bucket has.
pub refilled-sweep :
    (l : RateLimiter) (now : ℕ) (k : Text)
    → IsSane l now
    → refilled l now (lookup k (sweep l.idle_ttl now l.buckets))
      ≡ refilled l now (lookup k l.buckets)
unfolding refilled
refilled-sweep l now k v = elim (lookup-sweep l.idle_ttl now k l.buckets v.unique) [
  | inl e ↦ rw e refl
  | inr (e, (b, f, old)) ↦
      let full : capacity l ≤ (now - b.last) * l.rate_num = grind (arith, v.refills) in
      rw (e, f) (omega arith)
]

sweep-Unique : (ttl now : ℕ) (m : Map Bucket) → Unique m → Unique (sweep ttl now m)
unfolding sweep
sweep-Unique ttl now [] u = tt
sweep-Unique ttl now ((j, b) ∷ m) u =
    if_split Unique (leb ttl (now - b.last)) (λ _. sweep-Unique ttl now m u.1)
      λ _. (
        elim (lookup-sweep ttl now j m u.1) [ inl e ↦ rw e u.0 | inr (e, r) ↦ rw e refl ],
        sweep-Unique ttl now m u.1,
      )

length-sweep-le : (ttl now : ℕ) (m : Map Bucket) → length (sweep ttl now m) ≤ length m
unfolding sweep
length-sweep-le ttl now [] = omega arith
length-sweep-le ttl now ((j, b) ∷ m) =
    if_split (λ (r : Map Bucket). length r ≤ suc (length m)) (leb ttl (now - b.last))
      (λ _. omega (arith, length-sweep-le ttl now m))
      (λ _. omega (arith, length-sweep-le ttl now m))

trim_small : (n : ℕ) (m : Map Bucket) → length m ≤ n → trim n m ≡ m
unfolding trim
trim_small n m h = let e : leb (length m) n ≡ true = ground arith in rw e refl

-- The parameters of two limiters agree.
pub record SameParams (l k : RateLimiter) : Type 0 where
  pub burst : k.burst ≡ l.burst
  pub rate_num : k.rate_num ≡ l.rate_num
  pub rate_den : k.rate_den ≡ l.rate_den
  pub idle_ttl : k.idle_ttl ≡ l.idle_ttl
  pub max_keys : k.max_keys ≡ l.max_keys

abbrev pub same_params : (l : RateLimiter) → SameParams l l
same_params l = record {
  burst = refl;
  rate_num = refl;
  rate_den = refl;
  idle_ttl = refl;
  max_keys = refl;
}

-- What the sweep at the start of a call keeps while the keys stay below the ceiling.
pub record Keeps (l k : RateLimiter) (now : ℕ) : Type 0 where
  pub params : SameParams l k
  pub sane : IsSane k now
  pub tokens :
      (key : Text) → refilled k now (lookup key k.buckets) ≡ refilled l now (lookup key l.buckets)

swept : RateLimiter → ℕ → RateLimiter
swept l now = record l { last_gc = now; buckets = sweep l.idle_ttl now l.buckets }

swept-Keeps : (l : RateLimiter) (now : ℕ) → IsSane l now → Keeps l (swept l now) now
unfolding swept
swept-Keeps l now v = record {
  params = record {
    burst = refl;
    rate_num = refl;
    rate_den = refl;
    idle_ttl = refl;
    max_keys = refl;
  };
  sane = record {
    refills = v.refills;
    dated = λ k b e. elim (lookup-sweep l.idle_ttl now k l.buckets v.unique) [
      | inl f ↦ v.dated k b (rw f at e)
      | inr (f, r) ↦ absurd (cc (e, f))
    ];
    unique = sweep-Unique l.idle_ttl now l.buckets v.unique;
  };
  tokens = λ key. unfold refilled in refilled-sweep l now key v;
}

pub maybe_gc-Keeps :
    (l : RateLimiter) (now : ℕ)
    → IsSane l now
    → length l.buckets ≤ l.max_keys
    → Keeps l (maybe_gc l now) now
unfolding maybe_gc gc_locked swept
maybe_gc-Keeps l now v h =
    if_split (λ (k : RateLimiter). Keeps l k now)
      (leb rl_gc_interval (now - l.last_gc) || ltb l.max_keys (length l.buckets))
      (λ _.
        let e : trim l.max_keys (sweep l.idle_ttl now l.buckets) ≡ sweep l.idle_ttl now l.buckets =
          trim_small l.max_keys _ (omega (arith, length-sweep-le l.idle_ttl now l.buckets)) in
        rw e (swept-Keeps l now v))
      (λ _. record { params = same_params l; sane = v; tokens = λ key. refl })
