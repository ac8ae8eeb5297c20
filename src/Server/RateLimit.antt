-- ===== src/Server/RateLimit.antt =====
-- src/harness/server/http.ts: the rate limiter in front of the routes. A bucket holds thousandths of a
-- token and times are milliseconds, so what is refilled is a whole number for a whole rate; the
-- source computes with floats. `Date.now()` may go back, so tokens may fall below 0.
pub mod Rate
pub mod Buckets
pub mod Client
mod Tests
use loomctl.Base.{
  ℕ, zero, suc, ◌+◌, ◌-◌, ◌*◌, Bool, true, false, ◌&&◌, ◌||◌, String, Option, none, some, List, [],
  ◌∷◌, ◌==◌, eqb, ltb, leb, if◌then◌else◌, length, keep, map,
}
use loomctl.Base.Directory.{lookup, insert, erase}
use loomctl.Base.Int.{ℤ, pos, sub_ℕ, ◌+ℤ◌, ltb_ℤ, min_ℤ}
use loomctl.Base.Texts.{trim, split, join, nonempty}

-- `rateLimitRps`, `rateLimitBurst` and `rateLimitTrustedProxyHops`.
pub record RateLimitOptions : Type 0 where
  pub rps : ℕ
  pub burst : ℕ
  pub trusted_proxy_hops : ℕ

abbrev pub default_rate_limit : RateLimitOptions
default_rate_limit = record { rps = 200; burst = 500; trusted_proxy_hops = 0 }

abbrev pub rate_limit_max_buckets : ℕ
rate_limit_max_buckets = 10000

pub record Bucket : Type 0 where
  pub tokens : ℤ
  pub refilled_at : ℕ

abbrev pub Buckets : Type 0
Buckets = List (String × Bucket)

-- The header `x-forwarded-for`: missing, once, or repeated.
pub data ForwardedFor : Type 0 where
  missing : ForwardedFor
  once : String → ForwardedFor
  repeated : List String → ForwardedFor

unfoldable pub raw_header : ForwardedFor → String
raw_header missing = ""
raw_header (once header) = header
raw_header (repeated headers) = join "," headers

-- The trimmed entries of the header that are not empty.
unfoldable pub hops_of : ForwardedFor → List String
unfolding raw_header
hops_of header = nonempty (map trim (split (λ c. eqb c b',') (raw_header header)))

unfoldable pub hop_at : List String → ℕ → Option String
hop_at [] i = none
hop_at (hop ∷ hops) zero = some hop
hop_at (hop ∷ hops) (suc i) = hop_at hops i

unfoldable pub rate_limit_client_key : RateLimitOptions → String → ForwardedFor → String
unfolding hops_of
rate_limit_client_key options socket_address header =
    let hops = hops_of header in
    if eqb options.trusted_proxy_hops 0
    then socket_address
    else if leb options.trusted_proxy_hops (length hops)
    then elim (hop_at hops (length hops - options.trusted_proxy_hops)) [
      | none ↦ socket_address
      | some hop ↦ if hop == "" then socket_address else hop
    ]
    else socket_address

-- The sweep keeps a bucket that is not full, or was refilled in the last minute.
unfoldable pub survives_sweep : RateLimitOptions → ℕ → String × Bucket → Bool
survives_sweep options now entry =
    ltb_ℤ entry.1.tokens (pos (1000 * options.burst)) || leb now (entry.1.refilled_at + 60000)

-- The first of the buckets that were refilled the longest ago; `none` stands for `Infinity`.
unfoldable pub oldest : Buckets → Option (String × ℕ) → Option (String × ℕ)
oldest [] found = found
oldest (entry ∷ buckets) none = oldest buckets (some (entry.0, entry.1.refilled_at))
oldest (entry ∷ buckets) (some found) =
    oldest buckets
      (some (if ltb entry.1.refilled_at found.1 then (entry.0, entry.1.refilled_at) else found))

-- The `while` that evicts. Each round removes a bucket, so their number is fuel enough.
unfoldable pub evict : ℕ → Buckets → Buckets
evict zero buckets = buckets
evict (suc fuel) buckets = elim (ltb rate_limit_max_buckets (length buckets)) [
  | true ↦ elim (oldest buckets none) [
    | none ↦ buckets
    | some found ↦ evict fuel (erase found.0 buckets)
  ]
  | false ↦ buckets
]

unfoldable pub sweep : RateLimitOptions → ℕ → Buckets → Buckets
unfolding evict survives_sweep
sweep options now buckets =
    if ltb rate_limit_max_buckets (length buckets)
    then (let kept = keep (survives_sweep options now) buckets in evict (length kept) kept)
    else buckets

-- The bucket of a client, or a full one for a client that has none.
unfoldable pub bucket_or_full : RateLimitOptions → ℕ → Option Bucket → Bucket
bucket_or_full options now none = record { tokens = pos (1000 * options.burst); refilled_at = now }
bucket_or_full options now (some bucket) = bucket

-- The tokens of a bucket with what the time since its last refill adds.
unfoldable pub refill : RateLimitOptions → ℕ → Bucket → ℤ
refill options now bucket =
    min_ℤ (pos (1000 * options.burst))
      (bucket.tokens +ℤ sub_ℕ (now * options.rps) (bucket.refilled_at * options.rps))

-- Whether the request is let through, and the buckets after it.
unfoldable pub take_token : RateLimitOptions → String → ℕ → Buckets → Bool × Buckets
take_token options client_key now buckets =
    let tokens = refill options now (bucket_or_full options now (lookup client_key buckets)) in
    if ltb_ℤ tokens (pos 1000)
    then (false, insert client_key (record { tokens = tokens; refilled_at = now }) buckets)
    else (
      true,
      insert client_key (record { tokens = tokens +ℤ sub_ℕ 0 1000; refilled_at = now }) buckets,
    )

unfoldable pub take_rate_limit_token : RateLimitOptions → String → ℕ → Buckets → Bool × Buckets
take_rate_limit_token options client_key now buckets =
    if eqb options.rps 0
    then (true, buckets)
    else take_token options client_key now (sweep options now buckets)

-- The part of a request that the limiter reads.
pub record Request : Type 0 where
  pub url : Option String
  pub remote_address : Option String
  pub forwarded_for : ForwardedFor

unfoldable pub request_path : Request → String
request_path req = elim req.url [
  | none ↦ "/"
  | some url ↦ elim (split (λ c. eqb c b'?') url) [ [] ↦ "" | path ∷ _ ↦ path ]
]

unfoldable pub client_key_of : RateLimitOptions → Request → String
unfolding rate_limit_client_key
client_key_of options req =
    rate_limit_client_key options (elim req.remote_address [ none ↦ "unknown" | some a ↦ a ])
      req.forwarded_for

-- The guard in front of the routes: `false` is the answer 429.
unfoldable pub pass : RateLimitOptions → Request → ℕ → Buckets → Bool × Buckets
pass options req now buckets =
    if request_path req == "/healthz" || request_path req == "/readyz"
    then (true, buckets)
    else take_rate_limit_token options (client_key_of options req) now buckets
