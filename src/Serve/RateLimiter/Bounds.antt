-- ===== src/Serve/RateLimiter/Bounds.antt =====
-- How many calls the token bucket of internal/serve/auth.go can let through.
use herdr_expose.Prelude.Lists.{length}
use herdr_expose.Prelude.Map.{lookup-insert_self, insert-Unique, lookup-insert, lookup, insert}
use herdr_expose.Prelude.{
  ℕ, ◌+◌, ◌-◌, ◌*◌, ◌≤◌, ◌≡◌, refl, ap, ◌∙◌, ◌≢◌, inl, inr, Bool, true, false, ◌&&◌, Option, none,
  some, List, [], ◌∷◌, arith,
}
use herdr_expose.Prelude.Tests.{if_split, ltb, if◌then◌else◌, Bool-cases}
use herdr_expose.Prelude.Text.{text_eq_ne, text_eq_iff, text_eq, Text}
use herdr_expose.Serve.RateLimiter.{
  second, Bucket, RateLimiter, capacity, unit, refilled, spend, allow, maybe_gc,
}
use herdr_expose.Serve.RateLimiter.Sweep.{IsSane, SameParams, maybe_gc-Keeps}

-- The tokens of a key at a time, in units.
abbrev pub avail : RateLimiter → ℕ → Text → ℕ
avail l now key = refilled l now (lookup key l.buckets)

mul_sub : (a b c n : ℕ) → c ≤ b → b ≤ a → (a - c) * n ≡ (b - c) * n + (a - b) * n
mul_sub a b c n h k = let e : a - c ≡ (b - c) + (a - b) = omega arith in rw e (omega arith)

-- Waiting earns at most the rate.
refilled_later :
    (l : RateLimiter) (now t : ℕ) (o : Option Bucket)
    → now ≤ t
    → ((b : Bucket) → o ≡ some b → b.last ≤ now)
    → refilled l t o ≤ refilled l now o + (t - now) * l.rate_num
unfolding refilled
refilled_later l now t none h d = omega arith
refilled_later l now t (some b) h d = omega (arith, mul_sub t now b.last l.rate_num (d b refl) h)

IsSane-later : (l : RateLimiter) (now t : ℕ) → now ≤ t → IsSane l now → IsSane l t
IsSane-later l now t h v = record {
  refills = v.refills;
  dated = λ k b e. let d = v.dated k b e in omega arith;
  unique = v.unique;
}

-- What a call does, past the sweep.
record Spends (l k : RateLimiter) (now : ℕ) (key : Text) (granted : Bool) : Type 0 where
  params : SameParams l k
  sane : IsSane k now
  own : avail k now key + (if granted then unit l else 0) ≤ avail l now key
  others : (j : Text) → text_eq key j ≡ false → avail k now j ≡ avail l now j

insert-Spends :
    (l : RateLimiter) (now n : ℕ) (key : Text) (granted : Bool)
    → IsSane l now
    → n + (if granted then unit l else 0) ≤ avail l now key
    → Spends l
        (record l { buckets = insert key (record { tokens = n; last = now }) l.buckets })
        now
        key
        granted
unfolding refilled
insert-Spends l now n key granted v h = record {
  params = record {
    burst = refl;
    rate_num = refl;
    rate_den = refl;
    idle_ttl = refl;
    max_keys = refl;
  };
  sane = record {
    refills = v.refills;
    dated = λ k b e. elim (Bool-cases (text_eq key k)) [
      | inl same ↦
          let f : some (record { tokens = n; last = now }) ≡ some b =
            rw (lookup-insert key k (record { tokens = n; last = now }) l.buckets, same) at e in
          ground arith
      | inr other ↦
          v.dated k b
            (rw (lookup-insert key k (record { tokens = n; last = now }) l.buckets, other) at e)
    ];
    unique = insert-Unique key (record { tokens = n; last = now }) l.buckets v.unique;
  };
  own =
      rw (lookup-insert_self key (record { tokens = n; last = now }) l.buckets)
        (omega (arith, zero_time));
  others = λ j e. rw (lookup-insert key j (record { tokens = n; last = now }) l.buckets, e) refl;
}
  where
    zero_time : (now - now) * l.rate_num ≡ 0
    zero_time = let e : now - now ≡ 0 = omega arith in rw e (omega arith)

spend-Spends :
    (l : RateLimiter) (now : ℕ) (key : Text)
    → IsSane l now
    → Spends l (spend l now key).0 now key (spend l now key).1
unfolding spend
spend-Spends l now key v =
    if_split (λ (r : RateLimiter × Bool). Spends l r.0 now key r.1)
      (ltb (refilled l now (lookup key l.buckets)) (unit l))
      (λ e. insert-Spends l now (avail l now key) key false v (omega arith))
      (λ e. insert-Spends l now (avail l now key - unit l) key true v (ground arith))

pay_same :
    (a : ℕ) (b : Bool) (u u' x x' : ℕ)
    → u ≡ u'
    → x ≡ x'
    → a + (if b then u else 0) ≤ x
    → a + (if b then u' else 0) ≤ x'
pay_same a true u u' x x' p q h = omega arith
pay_same a false u u' x x' p q h = omega arith

-- A call on an unswept limiter, from the tokens of the time of the call.
allow-Spends :
    (l : RateLimiter) (now : ℕ) (key : Text)
    → IsSane l now
    → length l.buckets ≤ l.max_keys
    → Spends l (allow l now key).0 now key (allow l now key).1
unfolding allow
allow-Spends l now key v h =
    let k : RateLimiter = maybe_gc l now in
    let q = maybe_gc-Keeps l now v h in
    let s = spend-Spends k now key q.sane in
    record {
      params = record {
        burst = s.params.burst ∙ q.params.burst;
        rate_num = s.params.rate_num ∙ q.params.rate_num;
        rate_den = s.params.rate_den ∙ q.params.rate_den;
        idle_ttl = s.params.idle_ttl ∙ q.params.idle_ttl;
        max_keys = s.params.max_keys ∙ q.params.max_keys;
      };
      sane = s.sane;
      own =
          let u : unit k ≡ unit l = ap (λ (n : ℕ). second * n) q.params.rate_den in
          pay_same _ _ _ _ _ _ u (q.tokens key) s.own;
      others = λ j e. s.others j e ∙ q.tokens j;
    }

-- The calls of a run, and when they happen: time does not run backwards, and the table of keys is
-- not over its ceiling at any call.
abbrev pub IsCalm : RateLimiter → ℕ → List (ℕ × Text) → Type 0
IsCalm l now [] = Unit {0}
IsCalm l now ((t, key) ∷ cs) =
    (now ≤ t) × (length l.buckets ≤ l.max_keys) × IsCalm (allow l t key).0 t cs

abbrev pub end_time : ℕ → List (ℕ × Text) → ℕ
end_time now [] = now
end_time now ((t, key) ∷ cs) = end_time t cs

-- How many calls of a key were let through.
unfoldable pub granted : RateLimiter → Text → List (ℕ × Text) → ℕ
granted l key [] = 0
granted l key ((t, j) ∷ cs) =
    (if text_eq j key && (allow l t j).1 then 1 else 0) + granted (allow l t j).0 key cs

end_time-le :
    (l : RateLimiter) (now : ℕ) (cs : List (ℕ × Text)) → IsCalm l now cs → now ≤ end_time now cs
end_time-le l now [] c = omega arith
end_time-le l now ((t, key) ∷ cs) c = omega (arith, c.0, end_time-le (allow l t key).0 t cs c.2)

call_cost :
    (l : RateLimiter) (t : ℕ) (j key : Text)
    → Spends l (allow l t j).0 t j (allow l t j).1
    → avail (allow l t j).0 t key + (if text_eq j key && (allow l t j).1 then 1 else 0) * unit l
      ≤ avail l t key
call_cost l t j key s = elim (Bool-cases (text_eq j key)) [
  | inl same ↦
      let e : j ≡ key = (text_eq_iff j key).0 same in
      elim (Bool-cases (allow l t j).1) [
        | inl yes_ ↦ rw (same, yes_, ← e) (let o = rw yes_ at (s.own) in omega (arith, o))
        | inr no_ ↦ rw (same, no_, ← e) (let o = rw no_ at (s.own) in omega (arith, o))
      ]
  | inr other ↦ rw other (omega (arith, s.others key other))
]

granted_bound :
    (l : RateLimiter) (now : ℕ) (key : Text) (cs : List (ℕ × Text))
    → IsSane l now
    → IsCalm l now cs
    → granted l key cs * unit l ≤ avail l now key + (end_time now cs - now) * l.rate_num
unfolding granted
granted_bound l now key [] v c = omega arith
granted_bound l now key ((t, j) ∷ cs) v c =
    let vt = IsSane-later l now t c.0 v in
    let s = allow-Spends l t j vt c.1 in
    let k : RateLimiter = (allow l t j).0 in
    let ih = granted_bound k t key cs s.sane c.2 in
    let later = refilled_later l now t (lookup key l.buckets) c.0 (λ b e. v.dated key b e) in
    let u : unit k ≡ unit l = ap (λ (n : ℕ). second * n) s.params.rate_den in
    let r : (end_time t cs - t) * k.rate_num ≡ (end_time t cs - t) * l.rate_num =
      ap (λ (n : ℕ). (end_time t cs - t) * n) s.params.rate_num in
    let g : granted k key cs * unit k ≡ granted k key cs * unit l =
      ap (λ (n : ℕ). granted k key cs * n) u in
    let m = mul_sub (end_time t cs) t now l.rate_num c.0 (end_time-le k t cs c.2) in
    omega (arith, ih, later, r, g, m, call_cost l t j key s)

-- The bucket keeps its promise: over any run of calls, of any keys, in the order of their times, the
-- calls of one key that are let through are at most the burst plus the rate times the time that
-- passes (all in units). The limiter's idle period is long enough to refill a bucket, no bucket is
-- dated in the future, and the number of keys stays within the ceiling before each call.
pub granted-le-capacity :
    (l : RateLimiter) (now : ℕ) (key : Text) (cs : List (ℕ × Text))
    → IsSane l now
    → IsCalm l now cs
    → granted l key cs * unit l ≤ capacity l + (end_time now cs - now) * l.rate_num
granted-le-capacity l now key cs v c =
    omega (arith, granted_bound l now key cs v c, avail_le l now (lookup key l.buckets))
  where
    avail_le : (l : RateLimiter) (now : ℕ) (o : Option Bucket) → refilled l now o ≤ capacity l
    avail_le l now none = unfold refilled in omega arith
    avail_le l now (some b) = unfold refilled in omega arith

-- One key's calls leave every other key's tokens alone.
pub avail-allow_other :
    (l : RateLimiter) (now : ℕ) (key j : Text)
    → IsSane l now
    → length l.buckets ≤ l.max_keys
    → key ≢ j
    → avail (allow l now key).0 now j ≡ avail l now j
avail-allow_other l now key j v h ne = (allow-Spends l now key v h).others j (text_eq_ne key j ne)
