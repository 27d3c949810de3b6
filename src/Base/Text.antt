-- ===== src/Base/Text.antt =====
-- JavaScript's text methods on native texts. Letters outside ASCII are left as they are by the two
-- changes of case.
use Prim.Native.Nat.{ℕ}
use Prim.Native.Char.{Char, code}
use Prim.Native.String.{String}
use native.Mathlib.Omega.{arith}
use mathlib.Core.Path.{◌≡◌, refl, ap, ◌∙◌}
use mathlib.Core.Bool.{Bool, true, false, not, ◌&&◌, ◌||◌}
use mathlib.Core.Option.{Option, none, some}
use mathlib.Core.List.{List, [], ◌∷◌}
use text.Mathlib.Text.{◌==◌ as str_eq}
use riskrail.Base.Tests.{◌==◌, leb, ◌>>=◌, if◌then◌else◌}
use riskrail.Base.Lists.{keep}

-- the letters of one case, each with its partner
pairs : String → String → List (ℕ × Char)
pairs String.[] t = []
pairs (String.◌∷◌ c s) String.[] = []
pairs (String.◌∷◌ c s) (String.◌∷◌ d t) = (code c, d) ∷ pairs s t

partner : List (ℕ × Char) → Char → Char
partner [] c = c
partner ((n, d) ∷ rest) c = if n == code c then d else partner rest c

map_chars : (Char → Char) → String → String
map_chars f String.[] = String.[]
map_chars f (String.◌∷◌ c s) = String.◌∷◌ (f c) (map_chars f s)

unfoldable pub to_lower : String → String
unfolding pairs partner map_chars
to_lower = map_chars (partner (pairs "ABCDEFGHIJKLMNOPQRSTUVWXYZ" "abcdefghijklmnopqrstuvwxyz"))

unfoldable pub to_upper : String → String
unfolding pairs partner map_chars
to_upper = map_chars (partner (pairs "abcdefghijklmnopqrstuvwxyz" "ABCDEFGHIJKLMNOPQRSTUVWXYZ"))

lower_sbtc : to_lower "sBTC" ≡ "sbtc"
unfolding to_lower
lower_sbtc = refl

upper_sbtc : to_upper "sBTC-1" ≡ "SBTC-1"
unfolding to_upper
upper_sbtc = refl

-- white space of ASCII
abbrev pub is_space : Char → Bool
is_space c = code c == 32 || (leb 9 (code c) && leb (code c) 13)

abbrev pub trim_start : String → String
trim_start String.[] = String.[]
trim_start (String.◌∷◌ c s) = let rest = trim_start s in if is_space c then rest else String.◌∷◌ c s

abbrev pub is_empty : String → Bool
is_empty String.[] = true
is_empty (String.◌∷◌ c s) = false

abbrev pub trim_end : String → String
trim_end String.[] = String.[]
trim_end (String.◌∷◌ c s) =
    let rest = trim_end s in if is_space c && is_empty rest then String.[] else String.◌∷◌ c rest

-- `text.trim()`
abbrev pub trim : String → String
trim s = trim_end (trim_start s)

-- `text.startsWith(prefix)`
abbrev pub starts_with : String → String → Bool
starts_with String.[] s = true
starts_with (String.◌∷◌ c p) String.[] = false
starts_with (String.◌∷◌ c p) (String.◌∷◌ d s) = code c == code d && starts_with p s

-- what follows a prefix: `text.slice(prefix.length)` of a text that starts with it
abbrev pub after_prefix : String → String → Option String
after_prefix String.[] s = some s
after_prefix (String.◌∷◌ c p) String.[] = none
after_prefix (String.◌∷◌ c p) (String.◌∷◌ d s) =
    let rest = after_prefix p s in if code c == code d then rest else none

-- `text.includes(part)`
abbrev pub includes : String → String → Bool
includes part String.[] = is_empty part
includes part (String.◌∷◌ c s) = starts_with part (String.◌∷◌ c s) || includes part s

-- neither white space nor one of the separators `,`, `=` and `.`
abbrev pub is_plain : Char → Bool
is_plain c = not (is_space c) && (not (code c == 44) && (not (code c == 61) && not (code c == 46)))

-- one text after another
abbrev pub join : String → String → String
join String.[] t = t
join (String.◌∷◌ c s) t = String.◌∷◌ c (join s t)

abbrev pub before : Char → String × String → String × String
before c (a, b) = (String.◌∷◌ c a, b)

-- a text at the first character of a code, which is left out
unfoldable pub cut : ℕ → String → Option (String × String)
cut n String.[] = none
cut n (String.◌∷◌ c s) =
    let later = cut n s in
    if code c == n then some (String.[], s) else (later >>= λ parts. some (before c parts))

abbrev with_first : Char → List String → List String
with_first c [] = String.◌∷◌ c String.[] ∷ []
with_first c (s ∷ rest) = String.◌∷◌ c s ∷ rest

-- `text.split(separator)`, of one character
unfoldable pub split_on : ℕ → String → List String
split_on n String.[] = String.[] ∷ []
split_on n (String.◌∷◌ c s) =
    let rest = split_on n s in if code c == n then String.[] ∷ rest else with_first c rest

abbrev pub all_chars : (Char → Bool) → String → Bool
all_chars p String.[] = true
all_chars p (String.◌∷◌ c s) = p c && all_chars p s

pub all_chars-implies :
    (p q : Char → Bool) (s : String)
    → ((c : Char) → p c ≡ true → q c ≡ true)
    → all_chars p s ≡ true
    → all_chars q s ≡ true
all_chars-implies p q String.[] each h = refl
all_chars-implies p q (String.◌∷◌ c s) each h =
    ground (arith, h, each c, all_chars-implies p q s each)

-- a text before a separator that it does not have
pub cut-join :
    (n : ℕ) (a b : String) (c : Char)
    → all_chars (λ d. not (code d == n)) a ≡ true
    → code c ≡ n
    → cut n (join a (String.◌∷◌ c b)) ≡ some (a, b)
unfolding cut
cut-join n String.[] b c h k = ground (arith, k)
cut-join n (String.◌∷◌ d a) b c h k = ground (arith, h, cut-join n a b c, k)

pub split_on-join :
    (n : ℕ) (a b : String) (c : Char)
    → all_chars (λ d. not (code d == n)) a ≡ true
    → code c ≡ n
    → split_on n (join a (String.◌∷◌ c b)) ≡ a ∷ split_on n b
unfolding split_on
split_on-join n String.[] b c h k = ground (arith, k)
split_on-join n (String.◌∷◌ d a) b c h k = ground (arith, h, split_on-join n a b c, k)

pub split_on-none :
    (n : ℕ) (a : String) → all_chars (λ d. not (code d == n)) a ≡ true → split_on n a ≡ a ∷ []
unfolding split_on
split_on-none n String.[] h = refl
split_on-none n (String.◌∷◌ d a) h = ground (arith, h, split_on-none n a)

-- trimming leaves a text without white space as it is
pub trim_start-none : (s : String) → all_chars (λ c. not (is_space c)) s ≡ true → trim_start s ≡ s
trim_start-none String.[] h = refl
trim_start-none (String.◌∷◌ c s) h = ground (arith, h)

pub trim_end-none : (s : String) → all_chars (λ c. not (is_space c)) s ≡ true → trim_end s ≡ s
trim_end-none String.[] h = refl
trim_end-none (String.◌∷◌ c s) h = ground (arith, h, trim_end-none s)

pub trim-none : (s : String) → all_chars (λ c. not (is_space c)) s ≡ true → trim s ≡ s
trim-none s h = ap trim_end (trim_start-none s h) ∙ trim_end-none s h

-- the elements of a `Set`, in the order of their first insertion
unfoldable pub distinct : List String → List String
distinct [] = []
distinct (s ∷ rest) = s ∷ keep (λ t. not (str_eq t s)) (distinct rest)

-- `texts.join(separator)`
unfoldable pub join_with : (separator : String) → List String → String
join_with separator [] = String.[]
join_with separator (s ∷ []) = s
join_with separator (s ∷ t ∷ rest) = join s (join separator (join_with separator (t ∷ rest)))

pub after_prefix-join : (p s : String) → after_prefix p (join p s) ≡ some s
after_prefix-join String.[] s = refl
after_prefix-join (String.◌∷◌ c p) s = ground (arith, after_prefix-join p s)
