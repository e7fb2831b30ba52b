-- ===== src/Serve/RateLimiter.antt =====
-- internal/serve/auth.go: the keyed token bucket. Times are nanoseconds of a clock that does not run
-- backwards. The source counts tokens in a float64 and refills `refill` of them per second; here the
-- rate is the fraction `rate_num / rate_den`, and tokens are counted exactly, in units of which
-- `unit` make one token, so that a nanosecond refills `rate_num` units.
pub mod Bounds
pub mod Sweep
use herdr_expose.Prelude.{
  ℕ, ◌+◌, ◌-◌, ◌*◌, ◌/◌, ◌%◌, ◌^◌, Bool, true, false, ◌||◌, Option, none, some, List, [], ◌∷◌,
}
use herdr_expose.Prelude.Tests.{ltb, leb, if◌then◌else◌}
use herdr_expose.Prelude.Lists.{length, take, keep_if}
use herdr_expose.Prelude.Map.{Map, lookup, insert, delete}
use herdr_expose.Prelude.Text.{Text}
use Prim.Native.Nat.{min, max}

abbrev pub second : ℕ
second = 1000000000

abbrev pub rl_gc_interval : ℕ
rl_gc_interval = 60 * second

abbrev pub rl_max_keys : ℕ
rl_max_keys = 4096

pub record Bucket : Type 0 where
  pub tokens : ℕ
  pub last : ℕ

pub record RateLimiter : Type 0 where
  pub buckets : Map Bucket
  pub burst : ℕ
  pub rate_num : ℕ
  pub rate_den : ℕ
  pub idle_ttl : ℕ
  pub max_keys : ℕ
  pub last_gc : ℕ

abbrev pub unit : RateLimiter → ℕ
unit l = second * l.rate_den

abbrev pub capacity : RateLimiter → ℕ
capacity l = l.burst * unit l

unfoldable pub new_rate_limiter : ℕ → ℕ → ℕ → RateLimiter
new_rate_limiter burst rate_num rate_den = record {
  buckets = [];
  burst = burst;
  rate_num = rate_num;
  rate_den = rate_den;
  idle_ttl = max (600 * second) (second * rate_den * burst / rate_num);
  max_keys = rl_max_keys;
  last_gc = 0;
}

-- The first loop of `gcLocked`: buckets that went idle go.
unfoldable pub sweep : ℕ → ℕ → Map Bucket → Map Bucket
sweep ttl now [] = []
sweep ttl now ((k, b) ∷ m) =
    if leb ttl (now - b.last) then sweep ttl now m else (k, b) ∷ sweep ttl now m

unfoldable pub insert_oldest : Text × Bucket → Map Bucket → Map Bucket
insert_oldest e [] = e ∷ []
insert_oldest e (f ∷ m) = if leb e.1.last f.1.last then e ∷ f ∷ m else f ∷ insert_oldest e m

-- `sort.Slice(all, … Before …)`.
unfoldable pub sort_oldest : Map Bucket → Map Bucket
unfolding insert_oldest
sort_oldest [] = []
sort_oldest (e ∷ m) = insert_oldest e (sort_oldest m)

unfoldable pub delete_all : Map Bucket → Map Bucket → Map Bucket
delete_all [] m = m
delete_all ((k, b) ∷ gone) m = delete_all gone (delete k m)

-- The second half: past the ceiling, the least recently used go, down to three quarters.
unfoldable pub trim : ℕ → Map Bucket → Map Bucket
unfolding sort_oldest delete_all
trim max_keys m =
    if leb (length m) max_keys
    then m
    else delete_all (take (length m - max_keys * 3 / 4) (sort_oldest m)) m

unfoldable pub gc_locked : RateLimiter → ℕ → RateLimiter
gc_locked l now = record l {
  last_gc = now;
  buckets = trim l.max_keys (sweep l.idle_ttl now l.buckets);
}

unfoldable pub maybe_gc : RateLimiter → ℕ → RateLimiter
unfolding gc_locked
maybe_gc l now =
    if leb rl_gc_interval (now - l.last_gc) || ltb l.max_keys (length l.buckets)
    then gc_locked l now
    else l

-- The tokens that a key has at a time, its bucket refilled up to the burst.
unfoldable pub refilled : RateLimiter → ℕ → Option Bucket → ℕ
refilled l now none = capacity l
refilled l now (some b) = min (capacity l) (b.tokens + (now - b.last) * l.rate_num)

-- `allow`, past the sweep.
unfoldable pub spend : RateLimiter → ℕ → Text → RateLimiter × Bool
unfolding refilled
spend l now key =
    let tokens = refilled l now (lookup key l.buckets) in
    if ltb tokens (unit l)
    then (
      record l { buckets = insert key (record { tokens = tokens; last = now }) l.buckets },
      false,
    )
    else (
      record l { buckets = insert key (record { tokens = tokens - unit l; last = now }) l.buckets },
      true,
    )

unfoldable pub allow : RateLimiter → ℕ → Text → RateLimiter × Bool
unfolding maybe_gc spend
allow l now key = spend (maybe_gc l now) now key

unfoldable pub reset : RateLimiter → Text → RateLimiter
reset l key = record l { buckets = delete key l.buckets }
