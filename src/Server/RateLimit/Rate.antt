-- ===== src/Server/RateLimit/Rate.antt =====
-- src/harness/server/http.ts: how many requests of one client are let through in some time.
use loomctl.Base.{
  ℕ, zero, suc, min, ◌+◌, ◌-◌, ◌*◌, ◌≤◌, ◌<◌, ◌≡◌, refl, inl, inr, Bool, true, false, not, ◌&&◌,
  ◌||◌, String, Option, none, some, List, [], ◌∷◌, ◌==◌, eq_iff, arith, ltb, if◌then◌else◌,
  Bool-cases, length, keep,
}
use loomctl.Base.Directory.{lookup, insert, lookup-insert}
use loomctl.Base.Int.{ℤ, pos, negsuc, pos_part, neg_part, sub_ℕ, ◌+ℤ◌, ltb_ℤ, min_ℤ}
use loomctl.Server.RateLimit.{
  RateLimitOptions, Bucket, Buckets, Request, rate_limit_max_buckets, survives_sweep, evict, sweep,
  refill, bucket_or_full, take_token, take_rate_limit_token, request_path, client_key_of, pass,
}

-- What a refill leaves of the tokens above 0, in thousandths.
abbrev credit : RateLimitOptions → String → ℕ → Buckets → ℕ
credit options name now buckets =
    pos_part (refill options now (bucket_or_full options now (lookup name buckets)))

mul_diff : (rps from to : ℕ) → from ≤ to → to * rps ≡ from * rps + rps * (to - from)
mul_diff rps from to h = grind arith

-- The sum and the minimum on integers, as the part of them above 0.
sum_parts :
    (full : ℕ) (t : ℤ) (up down : ℕ)
    → pos_part (min_ℤ (pos full) (t +ℤ sub_ℕ up down))
      ≡ min full (pos_part t + up - (neg_part t + down))
unfolding min_ℤ ◌+ℤ◌
sum_parts full (pos t) up down = ground arith
sum_parts full (negsuc t) up down = ground arith

refill_parts :
    (options : RateLimitOptions) (now : ℕ) (b : Bucket)
    → pos_part (refill options now b)
      ≡ min (1000 * options.burst) (
          pos_part b.tokens + now * options.rps - (neg_part b.tokens + b.refilled_at * options.rps))
unfolding refill min_ℤ ◌+ℤ◌
refill_parts options now b =
    sum_parts (1000 * options.burst) b.tokens (now * options.rps) (b.refilled_at * options.rps)

split_time :
    (rps from now to : ℕ)
    → from ≤ now
    → now ≤ to
    → rps * (now - from) + rps * (to - now) ≡ rps * (to - from)
split_time rps from now to h k = grind arith

refill-le :
    (options : RateLimitOptions) (now : ℕ) (b : Bucket)
    → pos_part (refill options now b) ≤ 1000 * options.burst
refill-le options now b = omega (arith, refill_parts options now b)

refill-later :
    (options : RateLimitOptions) (from to : ℕ) (b : Bucket)
    → from ≤ to
    → pos_part (refill options to b) ≤ pos_part (refill options from b) + options.rps * (to - from)
refill-later options from to b h =
    omega (
      arith,
      mul_diff options.rps from to h,
      refill_parts options from b,
      refill_parts options to b,
    )

refill_now :
    (options : RateLimitOptions) (now : ℕ) (t : ℤ)
    → pos_part (refill options now (record { tokens = t; refilled_at = now })) ≤ pos_part t
refill_now options now t =
    omega (arith, refill_parts options now (record { tokens = t; refilled_at = now }))

later-full :
    (options : RateLimitOptions) (from to : ℕ) (o : Option Bucket)
    → from ≤ to
    → pos_part (refill options to (bucket_or_full options to o))
      ≤ pos_part (refill options from (bucket_or_full options from o)) + options.rps * (to - from)
unfolding bucket_or_full
later-full options from to none h = omega (
  arith,
  refill_parts options from (bucket_or_full options from none),
  refill_parts options to (bucket_or_full options to none),
)
later-full options from to (some b) h = refill-later options from to b h

credit-later :
    (options : RateLimitOptions) (name : String) (from to : ℕ) (buckets : Buckets)
    → from ≤ to
    → credit options name to buckets ≤ credit options name from buckets + options.rps * (to - from)
credit-later options name from to buckets h = later-full options from to (lookup name buckets) h

credit-le :
    (options : RateLimitOptions) (name : String) (now : ℕ) (buckets : Buckets)
    → credit options name now buckets ≤ 1000 * options.burst
credit-le options name now buckets =
    refill-le options now (bucket_or_full options now (lookup name buckets))

-- A bucket that the sweep takes away is as full as the new one that would replace it.
swept_full :
    (options : RateLimitOptions) (now : ℕ) (entry : String × Bucket)
    → survives_sweep options now entry ≡ false
    → pos_part (refill options now entry.1) ≡ 1000 * options.burst
unfolding survives_sweep
swept_full options now entry h =
    ground (arith, refill_parts options now entry.1, mul_diff options.rps entry.1.refilled_at now)

credit-keep :
    (options : RateLimitOptions) (name : String) (now : ℕ) (buckets : Buckets)
    → credit options name now (keep (survives_sweep options now) buckets)
      ≤ credit options name now buckets
unfolding lookup bucket_or_full
credit-keep options name now [] = omega arith
credit-keep options name now (entry ∷ buckets) = ground (
  arith,
  credit-keep options name now buckets,
  credit-le options name now (keep (survives_sweep options now) buckets),
  swept_full options now entry,
)

evict-few :
    (fuel : ℕ) (buckets : Buckets)
    → length buckets ≤ rate_limit_max_buckets
    → evict fuel buckets ≡ buckets
unfolding evict
evict-few zero buckets h = refl
evict-few (suc fuel) buckets h = ground arith

credit-sweep :
    (options : RateLimitOptions) (name : String) (now : ℕ) (buckets : Buckets)
    → length (keep (survives_sweep options now) buckets) ≤ rate_limit_max_buckets
    → credit options name now (sweep options now buckets) ≤ credit options name now buckets
unfolding sweep
credit-sweep options name now buckets h =
    elim (Bool-cases (ltb rate_limit_max_buckets (length buckets))) [
      | inl over ↦ rw (over, evict-few _ _ h) (credit-keep options name now buckets)
      | inr few ↦ rw few (omega arith)
    ]

abbrev cost : Bool → ℕ
cost true = 1000
cost false = 0

credit-insert :
    (options : RateLimitOptions) (name client_key : String) (now : ℕ) (t : ℤ) (buckets : Buckets)
    → credit options name now (insert client_key (record { tokens = t; refilled_at = now }) buckets)
      ≤ (if client_key == name then pos_part t else credit options name now buckets)
unfolding bucket_or_full
credit-insert options name client_key now t buckets = ground (
  arith,
  lookup-insert client_key name (record { tokens = t; refilled_at = now }) buckets,
  refill_now options now t,
)

spend_parts :
    (t : ℤ) → ltb_ℤ t (pos 1000) ≡ false → pos_part (t +ℤ sub_ℕ 0 1000) + 1000 ≡ pos_part t
unfolding ◌+ℤ◌
spend_parts (pos t) h = ground arith
spend_parts (negsuc t) h = ground arith

take_token-credit :
    (options : RateLimitOptions) (name client_key : String) (now : ℕ) (buckets : Buckets)
    → let taken = take_token options client_key now buckets in
      cost ((client_key == name) && taken.0) + credit options name now taken.1
      ≤ credit options name now buckets
unfolding take_token
take_token-credit options name client_key now buckets =
    let t = refill options now (bucket_or_full options now (lookup client_key buckets)) in
    elim (Bool-cases (ltb_ℤ t (pos 1000))) [
      | inl empty ↦ rw empty (
          ground
            (arith, eq_iff client_key name, credit-insert options name client_key now t buckets))
      | inr enough ↦ rw enough (
          ground (
            arith,
            eq_iff client_key name,
            spend_parts t enough,
            credit-insert options name client_key now (t +ℤ sub_ℕ 0 1000) buckets,
          ))
    ]

-- The probes of health and readiness are exempt.
abbrev limited : Request → Bool
limited req = not (request_path req == "/healthz" || request_path req == "/readyz")

-- A request that is let through, of the client that is asked for, and not a probe.
abbrev counted : RateLimitOptions → String → Request → ℕ → Buckets → Bool
counted options name req now buckets =
    limited req && (client_key_of options req == name) && (pass options req now buckets).0

-- The sweep leaves no more buckets than the limiter keeps, so none is evicted.
abbrev pub Roomy : RateLimitOptions → ℕ → Buckets → Type 0
Roomy options now buckets =
    length (keep (survives_sweep options now) buckets) ≤ rate_limit_max_buckets

pass-credit :
    (options : RateLimitOptions) (name : String) (req : Request) (now : ℕ) (buckets : Buckets)
    → 0 < options.rps
    → Roomy options now buckets
    → cost (counted options name req now buckets)
        + credit options name now (pass options req now buckets).1
      ≤ credit options name now buckets
unfolding pass take_rate_limit_token
pass-credit options name req now buckets positive roomy =
    elim (Bool-cases (request_path req == "/healthz" || request_path req == "/readyz")) [
      | inl exempt ↦ rw exempt (omega arith)
      | inr limits ↦ rw limits (
          ground (
            arith,
            take_token-credit options name (client_key_of options req) now
                (sweep options now buckets),
            credit-sweep options name now buckets roomy,
          ))
    ]

-- The requests of one client that were let through, probes aside.
abbrev pub passed : RateLimitOptions → String → List (Request × ℕ) → Buckets → ℕ
passed options name [] buckets = 0
passed options name ((req, now) ∷ calls) buckets =
    (if counted options name req now buckets then 1 else 0)
    + passed options name calls (pass options req now buckets).1

-- The clock does not go back between the calls, and stays between two readings.
abbrev pub Between : ℕ → List (Request × ℕ) → ℕ → Type 0
Between from [] to = from ≤ to
Between from ((req, now) ∷ calls) to = (from ≤ now) × Between now calls to

-- No call evicts a bucket.
abbrev pub NeverFull : RateLimitOptions → List (Request × ℕ) → Buckets → Type 0
NeverFull options [] buckets = Unit
NeverFull options ((req, now) ∷ calls) buckets =
    Roomy options now buckets × NeverFull options calls (pass options req now buckets).1

Between-le : (from to : ℕ) (calls : List (Request × ℕ)) → Between from calls to → from ≤ to
Between-le from to [] h = h
Between-le from to ((req, now) ∷ calls) (h, later) = omega (arith, Between-le now to calls later)

passed-le :
    (options : RateLimitOptions) (name : String) (calls : List (Request × ℕ)) (buckets : Buckets)
    → (from to : ℕ) → 0 < options.rps
    → Between from calls to
    → NeverFull options calls buckets
    → 1000 * passed options name calls buckets
      ≤ credit options name from buckets + options.rps * (to - from)
passed-le options name [] buckets from to positive times room = omega arith
passed-le options name ((req, now) ∷ calls) buckets from to positive (h, times) (roomy, room) =
    let after = (pass options req now buckets).1 in
    ground (
      arith,
      passed-le options name calls after now to positive times room,
      pass-credit options name req now buckets positive roomy,
      credit-later options name from now buckets h,
      split_time options.rps from now to h (Between-le now to calls times),
    )

-- The token bucket holds: between two readings of a clock that does not go back, and at a rate
-- above 0, a client gets at most `burst` requests through, and `rps` more for each second between
-- the readings, if no call finds more than 10000 buckets that the sweep leaves, and whatever the
-- buckets held before.
pub rate_bound :
    (options : RateLimitOptions) (name : String) (calls : List (Request × ℕ)) (buckets : Buckets)
    → (from to : ℕ) → 0 < options.rps
    → Between from calls to
    → NeverFull options calls buckets
    → 1000 * passed options name calls buckets ≤ 1000 * options.burst + options.rps * (to - from)
rate_bound options name calls buckets from to positive times room = omega (
  arith,
  passed-le options name calls buckets from to positive times room,
  credit-le options name from buckets,
)
