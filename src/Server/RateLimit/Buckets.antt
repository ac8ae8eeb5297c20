-- ===== src/Server/RateLimit/Buckets.antt =====
-- src/harness/server/http.ts: how many buckets the limiter keeps.
use loomctl.Base.{
  ℕ, zero, suc, ◌+◌, ◌≤◌, ◌||◌, ◌≡◌, refl, ◌⊎◌, inl, inr, String, none, some, List, [], ◌∷◌, ◌==◌,
  eq_refl, arith, ltb, eqb, if◌then◌else◌, Bool-cases, length, keep,
}
use loomctl.Base.Directory.{lookup, erase, length-insert, length-erase_old}
use loomctl.Server.RateLimit.{
  RateLimitOptions, Bucket, Buckets, Request, rate_limit_max_buckets, survives_sweep, oldest, evict,
  sweep, take_token, take_rate_limit_token, pass, refill, bucket_or_full, request_path,
  client_key_of,
}
use loomctl.Base.Int.{pos, ltb_ℤ}

abbrev Holds : String → Buckets → Type 0
Holds name buckets = (bucket : Bucket) × (lookup name buckets ≡ some bucket)

Holds-cons :
    (name : String) (entry : String × Bucket) (buckets : Buckets)
    → Holds name buckets
    → Holds name (entry ∷ buckets)
unfolding lookup
Holds-cons name entry buckets h = elim (Bool-cases (entry.0 == name)) [
  | inl same ↦ (entry.1, rw same)
  | inr other ↦ (h.0, rw other h.1)
]

Holds-head : (entry : String × Bucket) (buckets : Buckets) → Holds entry.0 (entry ∷ buckets)
unfolding lookup
Holds-head entry buckets = (entry.1, rw (eq_refl entry.0))

-- The bucket that is found is the one that was found before, or one of the table.
oldest-Holds :
    (buckets : Buckets) (found best : String × ℕ)
    → oldest buckets (some found) ≡ some best
    → (best ≡ found) ⊎ Holds best.0 buckets
unfolding oldest
oldest-Holds [] found best h = inl (cc)
oldest-Holds (entry ∷ buckets) found best h = elim (Bool-cases (ltb entry.1.refilled_at found.1)) [
  | inl older ↦ elim (oldest-Holds buckets (entry.0, entry.1.refilled_at) best (rw older at h)) [
    | inl e ↦ inr (rw e (Holds-head entry buckets))
    | inr later ↦ inr (Holds-cons best.0 entry buckets later)
  ]
  | inr newer ↦ elim (oldest-Holds buckets found best (rw newer at h)) [
    | inl e ↦ inl e
    | inr later ↦ inr (Holds-cons best.0 entry buckets later)
  ]
]

oldest-found :
    (buckets : Buckets) (found : String × ℕ)
    → (best : String × ℕ) × (oldest buckets (some found) ≡ some best)
unfolding oldest
oldest-found [] found = (found, refl)
oldest-found (entry ∷ buckets) found =
    oldest-found buckets
      (if ltb entry.1.refilled_at found.1 then (entry.0, entry.1.refilled_at) else found)

oldest-some :
    (entry : String × Bucket) (buckets : Buckets)
    → (best : String × ℕ) × (oldest (entry ∷ buckets) none ≡ some best)
      × Holds best.0 (entry ∷ buckets)
unfolding oldest
oldest-some entry buckets =
    let (best, found) = oldest-found buckets (entry.0, entry.1.refilled_at) in
    (
      best,
      found,
      elim (oldest-Holds buckets (entry.0, entry.1.refilled_at) best found) [
        | inl e ↦ rw e (Holds-head entry buckets)
        | inr later ↦ Holds-cons best.0 entry buckets later
      ],
    )

evict-le :
    (fuel : ℕ) (buckets : Buckets)
    → length buckets ≤ fuel
    → length (evict fuel buckets) ≤ rate_limit_max_buckets
unfolding evict
evict-le zero [] h = omega arith
evict-le zero (entry ∷ buckets) h = elim h [ ]
evict-le (suc fuel) [] h = omega arith
evict-le (suc fuel) (entry ∷ buckets) h =
    let (best, e, (bucket, held)) = oldest-some entry buckets in
    ground (
      arith,
      e,
      evict-le fuel (erase best.0 (entry ∷ buckets)),
      length-erase_old best.0 bucket (entry ∷ buckets) held,
    )

sweep-le :
    (options : RateLimitOptions) (now : ℕ) (buckets : Buckets)
    → length (sweep options now buckets) ≤ rate_limit_max_buckets
unfolding sweep
sweep-le options now buckets = ground (
  arith,
  evict-le (length (keep (survives_sweep options now) buckets))
      (keep (survives_sweep options now) buckets),
)

take_token-le :
    (options : RateLimitOptions) (client_key : String) (now : ℕ) (buckets : Buckets)
    → length (take_token options client_key now buckets).1 ≤ suc (length buckets)
unfolding take_token
take_token-le options client_key now buckets =
    elim (Bool-cases (
      ltb_ℤ (refill options now (bucket_or_full options now (lookup client_key buckets)))
        (pos 1000))) [
          | inl empty ↦ rw empty (length-insert client_key _ buckets)
          | inr enough ↦ rw enough (length-insert client_key _ buckets)
        ]

-- The calls of the limiter, one behind the other.
abbrev pub serve : RateLimitOptions → List (Request × ℕ) → Buckets → Buckets
serve options [] buckets = buckets
serve options ((req, now) ∷ calls) buckets = serve options calls (pass options req now buckets).1

abbrev Few : Buckets → Type 0
Few buckets = length buckets ≤ rate_limit_max_buckets + 1

take_rate_limit_token-Few :
    (options : RateLimitOptions) (client_key : String) (now : ℕ) (buckets : Buckets)
    → Few buckets
    → Few (take_rate_limit_token options client_key now buckets).1
unfolding take_rate_limit_token
take_rate_limit_token-Few options client_key now buckets h = elim (Bool-cases (eqb options.rps 0)) [
  | inl unlimited ↦ rw unlimited h
  | inr limited ↦ rw limited (
      omega (
        arith,
        sweep-le options now buckets,
        take_token-le options client_key now (sweep options now buckets),
      ))
]

pass-Few :
    (options : RateLimitOptions) (req : Request) (now : ℕ) (buckets : Buckets)
    → Few buckets
    → Few (pass options req now buckets).1
unfolding pass
pass-Few options req now buckets h =
    elim (Bool-cases (request_path req == "/healthz" || request_path req == "/readyz")) [
      | inl exempt ↦ rw exempt h
      | inr limited ↦
          rw limited (take_rate_limit_token-Few options (client_key_of options req) now buckets h)
    ]

serve-Few :
    (options : RateLimitOptions) (calls : List (Request × ℕ)) (buckets : Buckets)
    → Few buckets
    → Few (serve options calls buckets)
serve-Few options [] buckets h = h
serve-Few options ((req, now) ∷ calls) buckets h =
    serve-Few options calls (pass options req now buckets).1 (pass-Few options req now buckets h)

-- Whatever requests come, from however many clients and at whatever readings of the clock, a server
-- that began with no buckets never holds more than 10001.
pub buckets_bound :
    (options : RateLimitOptions) (calls : List (Request × ℕ))
    → length (serve options calls []) ≤ rate_limit_max_buckets + 1
buckets_bound options calls = serve-Few options calls [] (omega arith)
