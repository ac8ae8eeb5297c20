-- ===== src/Base/Texts/Split.antt =====
-- How `split` cuts a text, and that `join` puts in what `split` takes out.
use Prim.Native.Char.{Char, code}
use Prim.Native.Nat.{ℕ}
use Prim.Native.String
use Prim.Native.String.{String}
use mathlib.Core.Path.{◌≡◌, ap, ◌∙◌}
use mathlib.Core.Bool.{Bool, true, false}
use mathlib.Core.List.{List, [], ◌∷◌, ◌++◌}
use native.Mathlib.Omega.{arith}
use text.Mathlib.TextLemmas.{nil-append, cons-append, append-nil, append_assoc}
use loomctl.Base.Lists.{All}
use loomctl.Base.Texts.{split, split_from, join, any_code}

split_from-append :
    (sep : ℕ → Bool) (c : Char) (cur a b : String)
    → sep (code c) ≡ true
    → split_from sep cur (String.◌++◌ a (String.◌∷◌ c b))
      ≡ split_from sep cur a ++ split_from sep "" b
unfolding split_from
split_from-append sep c cur String.[] b h = rw (nil-append (String.◌∷◌ c b)) (ground (arith, h))
split_from-append sep c cur (String.◌∷◌ d a) b h = rw (cons-append d a (String.◌∷◌ c b)) (
    ground (
      arith,
      split_from-append sep c "" a b h,
      split_from-append sep c (String.◌++◌ cur (String.◌∷◌ d String.[])) a b h,
    ))

-- A separator in the text cuts it in two, which are split each for itself.
pub split-append :
    (sep : ℕ → Bool) (c : Char) (a b : String)
    → sep (code c) ≡ true
    → split sep (String.◌++◌ a (String.◌∷◌ c b)) ≡ split sep a ++ split sep b
unfolding split
split-append sep c a b h = split_from-append sep c "" a b h

split_from-whole :
    (sep : ℕ → Bool) (cur s : String)
    → any_code sep s ≡ false
    → split_from sep cur s ≡ String.◌++◌ cur s ∷ []
unfolding split_from any_code
split_from-whole sep cur String.[] h = rw (append-nil cur)
split_from-whole sep cur (String.◌∷◌ c s) h = ground (
  arith,
  split_from-whole sep (String.◌++◌ cur (String.◌∷◌ c String.[])) s,
  append_assoc cur (String.◌∷◌ c String.[]) s,
  cons-append c String.[] s,
  nil-append s,
)

-- A text without a separator stays whole.
pub split-whole : (sep : ℕ → Bool) (s : String) → any_code sep s ≡ false → split sep s ≡ s ∷ []
unfolding split
split-whole sep s h = split_from-whole sep "" s h ∙ rw (nil-append s)

-- A separator in front of a text.
pub glue :
    (c : Char) (a b : String)
    → String.◌++◌ a (String.◌++◌ (String.◌∷◌ c String.[]) b) ≡ String.◌++◌ a (String.◌∷◌ c b)
glue c a b = rw (cons-append c String.[] b, nil-append b)

-- Texts without a separator are what `split` finds in them joined.
pub split-join :
    (sep : ℕ → Bool) (c : Char) (s : String) (ss : List String)
    → sep (code c) ≡ true
    → All (λ t. any_code sep t ≡ false) (s ∷ ss)
    → split sep (join (String.◌∷◌ c String.[]) (s ∷ ss)) ≡ s ∷ ss
unfolding join
split-join sep c s [] hc (h, _) = split-whole sep s h
split-join sep c s (t ∷ ss) hc (h, hs) =
    ap (split sep) (glue c s (join (String.◌∷◌ c String.[]) (t ∷ ss)))
    ∙ split-append sep c s (join (String.◌∷◌ c String.[]) (t ∷ ss)) hc
    ∙ rw (split-whole sep s h, split-join sep c t ss hc hs)
