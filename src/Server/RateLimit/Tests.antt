-- ===== src/Server/RateLimit/Tests.antt =====
-- src/harness/server/http.ts: runs of the rate limiter.
use loomctl.Base.{ℕ, ◌+◌, ◌-◌, ◌*◌, ◌≤◌, ◌≡◌, refl, String, some, List, [], ◌∷◌, arith, length}
use loomctl.Base.Directory.{lookup, insert}
use loomctl.Base.Int.{◌+ℤ◌, min_ℤ}
use loomctl.Base.Texts.{trim, split, join, nonempty, any_code}
use loomctl.Server.RateLimit.{
  RateLimitOptions, Request, once, raw_header, hops_of, hop_at, rate_limit_client_key,
  rate_limit_max_buckets, bucket_or_full, refill, survives_sweep, sweep, take_token,
  take_rate_limit_token, request_path, client_key_of, pass,
}
use loomctl.Server.RateLimit.Buckets.{serve, buckets_bound}
use loomctl.Server.RateLimit.Rate.{NeverFull, passed, rate_bound}
use loomctl.Server.RateLimit.Client.{client_key_unspoofable}

-- One request a second, two at once, behind two proxies.
abbrev options : RateLimitOptions
options = record { rps = 1; burst = 2; trusted_proxy_hops = 2 }

abbrev from_client : String → Request
from_client path = record {
  url = some path;
  remote_address = some "10.0.0.9";
  forwarded_for = once "1.1.1.1, 7.7.7.7, 10.0.0.1";
}

abbrev calls : List (Request × ℕ)
calls =
    (from_client "/runs?limit=3", 100)
    ∷ (from_client "/runs", 200)
    ∷ (from_client "/runs", 300)
    ∷ (from_client "/healthz", 300)
    ∷ (from_client "/runs", 1200)
    ∷ []

known_by_hop : client_key_of options (from_client "/") ≡ "7.7.7.7"
unfolding client_key_of rate_limit_client_key hops_of raw_header hop_at trim split nonempty
known_by_hop = refl

-- The third request is refused, and the last one is let through again.
three_pass : passed options "7.7.7.7" calls [] ≡ 3
unfolding pass take_rate_limit_token take_token sweep bucket_or_full refill ◌+ℤ◌ min_ℤ lookup insert
    request_path client_key_of rate_limit_client_key hops_of raw_header hop_at trim split nonempty
three_pass = refl

room : NeverFull options calls []
unfolding survives_sweep pass take_rate_limit_token take_token sweep bucket_or_full refill ◌+ℤ◌
    min_ℤ lookup insert request_path client_key_of rate_limit_client_key hops_of raw_header hop_at
    trim split nonempty
room = (omega arith, (omega arith, (omega arith, (omega arith, (omega arith, tt)))))

rate_bound_example : 1000 * passed options "7.7.7.7" calls [] ≤ 1000 * 2 + 1 * (1200 - 100)
rate_bound_example = rate_bound options "7.7.7.7" calls [] 100 1200 (omega arith) (omega arith) room

buckets_bound_example : length (serve options calls []) ≤ rate_limit_max_buckets + 1
buckets_bound_example = buckets_bound options calls

client_key_unspoofable_example :
    rate_limit_client_key options "10.0.0.9" (once "1.1.1.1,7.7.7.7,10.0.0.1") ≡ trim "7.7.7.7"
unfolding any_code trim raw_header join
client_key_unspoofable_example =
    client_key_unspoofable options "10.0.0.9" "1.1.1.1" "7.7.7.7" ("10.0.0.1" ∷ [])
      (once "1.1.1.1,7.7.7.7,10.0.0.1") refl
      (
        record { no_comma = refl; not_blank = refl },
        (record { no_comma = refl; not_blank = refl }, tt),
      )
      refl
