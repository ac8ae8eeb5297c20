-- ===== src/Server/RateLimit/Client.antt =====
-- src/harness/server/http.ts: the address by which the limiter knows a client behind proxies.
use Prim.Native.String
use mathlib.Core.List.{map-append}
use loomctl.Base.{
  suc, ◌≡◌, refl, ap, ◌∙◌, false, String, some, List, [], ◌∷◌, ◌++◌, map, ◌==◌, arith, eqb, All,
  length, length-append,
}
use loomctl.Base.Texts.{trim, split, join, nonempty, any_code}
use loomctl.Base.Texts.Split.{glue, split-append, split-join}
use loomctl.Server.RateLimit.{
  RateLimitOptions, ForwardedFor, raw_header, hops_of, hop_at, rate_limit_client_key,
}

nonempty-append : (xs ys : List String) → nonempty (xs ++ ys) ≡ nonempty xs ++ nonempty ys
unfolding nonempty
nonempty-append [] ys = refl
nonempty-append (x ∷ xs) ys = ground (arith, nonempty-append xs ys)

hop_at-append : (xs ys : List String) (y : String) → hop_at (xs ++ y ∷ ys) (length xs) ≡ some y
unfolding hop_at
hop_at-append [] ys y = refl
hop_at-append (x ∷ xs) ys y = hop_at-append xs ys y

-- An entry that a proxy may append: it has no comma, and is not blank.
pub record IsHop (entry : String) : Type 0 where
  pub no_comma : any_code (λ c. eqb c b',') entry ≡ false
  pub not_blank : (trim entry == "") ≡ false

abbrev AllHops : List String → Type 0
AllHops = All IsHop

no_commas :
    (entries : List String)
    → AllHops entries
    → All (λ t. any_code (λ c. eqb c b',') t ≡ false) entries
no_commas [] h = tt
no_commas (entry ∷ entries) (h, hs) = (h.no_comma, no_commas entries hs)

kept_whole :
    (entries : List String) → AllHops entries → nonempty (map trim entries) ≡ map trim entries
unfolding nonempty
kept_whole [] h = refl
kept_whole (entry ∷ entries) (h, hs) = rw (h.not_blank, kept_whole entries hs)

length-trim : (entries : List String) → length (map trim entries) ≡ length entries
length-trim [] = refl
length-trim (entry ∷ entries) = ap suc (length-trim entries)

-- What a proxy chain makes of what was sent to it: each proxy appends one entry on the right.
abbrev pub appended : String → List String → String
appended sent entries = String.◌++◌ sent (String.◌++◌ "," (join "," entries))

split-appended :
    (sent first : String) (rest : List String)
    → AllHops (first ∷ rest)
    → split (λ c. eqb c b',') (appended sent (first ∷ rest))
      ≡ split (λ c. eqb c b',') sent ++ first ∷ rest
split-appended sent first rest h =
    ap (split (λ c. eqb c b',')) (glue _ sent (join "," (first ∷ rest)))
    ∙ split-append (λ c. eqb c b',') _ sent (join "," (first ∷ rest)) refl
    ∙ ap (λ t. split (λ c. eqb c b',') sent ++ t)
        (split-join (λ c. eqb c b',') _ first rest refl (no_commas (first ∷ rest) h))

-- The hops of a header to which proxies appended entries end with these entries, trimmed.
hops_of-appended :
    (header : ForwardedFor) (sent first : String) (rest : List String)
    → AllHops (first ∷ rest)
    → raw_header header ≡ appended sent (first ∷ rest)
    → hops_of header ≡ nonempty (map trim (split (λ c. eqb c b',') sent)) ++ map trim (first ∷ rest)
unfolding hops_of
hops_of-appended header sent first rest h e =
    ap (λ t. nonempty (map trim (split (λ c. eqb c b',') t))) e
    ∙ ap (λ t. nonempty (map trim t)) (split-appended sent first rest h)
    ∙ ap nonempty (map-append trim (split (λ c. eqb c b',') sent) (first ∷ rest))
    ∙ nonempty-append (map trim (split (λ c. eqb c b',') sent)) (map trim (first ∷ rest))
    ∙ ap (λ t. nonempty (map trim (split (λ c. eqb c b',') sent)) ++ t)
        (kept_whole (first ∷ rest) h)

-- Behind trusted proxies that each append one entry to the header, neither blank nor with a comma
-- in it, the limiter takes the entry of the outermost one for the client, whatever text the client
-- sent in the header.
pub client_key_unspoofable :
    (options : RateLimitOptions) (socket_address sent first : String) (rest : List String)
    → (header : ForwardedFor) → options.trusted_proxy_hops ≡ length (first ∷ rest)
    → AllHops (first ∷ rest)
    → raw_header header ≡ appended sent (first ∷ rest)
    → rate_limit_client_key options socket_address header ≡ trim first
unfolding rate_limit_client_key
client_key_unspoofable options socket_address sent first rest header n h e =
    let front = nonempty (map trim (split (λ c. eqb c b',') sent)) in
    rw (hops_of-appended header sent first rest h e, n)
      (ground (
        arith,
        length-append front (map trim (first ∷ rest)),
        length-trim rest,
        hop_at-append front (map trim rest) (trim first),
      ))
