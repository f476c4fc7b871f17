-- ===== src/Campaign/Text.antt =====
-- What internal/campaign uses of Go's strings and unicode packages, on texts as lists of code
-- points: the standard library's TrimSpace, Count, Cut, Split, Fields, Join and ToLower.
use personalized_email_pipel.Prelude.{
  ℕ, ◌+◌, Bool, true, false, not, ◌&&◌, ◌||◌, List, [], ◌∷◌, ◌++◌, ltb, leb, ◌==◌, if◌then◌else◌,
  length,
}
use personalized_email_pipel.Campaign.Model.{Text}
use Prim.Native.Char.{code}
use Prim.Native.String.{String}

-- The code points of a literal.
abbrev pub codes : String → Text
codes String.[] = []
codes (String.◌∷◌ c s) = code c ∷ codes s

-- unicode.IsSpace.
unfoldable pub is_space : ℕ → Bool
is_space c =
    (leb 9 c && leb c 13)
    || c == 32
    || c == 0x85
    || c == 0xA0
    || c == 0x1680
    || (leb 0x2000 c && leb c 0x200A)
    || c == 0x2028
    || c == 0x2029
    || c == 0x202F
    || c == 0x205F
    || c == 0x3000

-- unicode.IsControl: the category Cc.
unfoldable pub is_control : ℕ → Bool
is_control c = leb c 0x1F || (leb 0x7F c && leb c 0x9F)

-- The number of bytes of a code point in UTF-8, and len of a text.
unfoldable pub rune_len : ℕ → ℕ
rune_len c = if ltb c 0x80 then 1 else if ltb c 0x800 then 2 else if ltb c 0x10000 then 3 else 4

unfoldable pub byte_len : Text → ℕ
unfolding rune_len
byte_len [] = 0
byte_len (c ∷ s) = rune_len c + byte_len s

unfoldable pub trim_left : Text → Text
trim_left [] = []
trim_left (c ∷ s) = if is_space c then trim_left s else c ∷ s

-- Trailing white space: a space is kept if something else follows it.
unfoldable pub trim_right : Text → Text
trim_right [] = []
trim_right (c ∷ s) = let t = trim_right s in if length t == 0 && is_space c then [] else c ∷ t

unfoldable pub trim_space : Text → Text
trim_space s = trim_right (trim_left s)

unfoldable pub count_rune : ℕ → Text → ℕ
count_rune x [] = 0
count_rune x (c ∷ s) = (if c == x then 1 else 0) + count_rune x s

-- strings.Cut at a one-rune separator: the parts before and behind its first occurrence.
unfoldable pub cut : ℕ → Text → Text × Text
cut x [] = ([], [])
cut x (c ∷ s) = let (a, b) = cut x s in if c == x then ([], s) else (c ∷ a, b)

-- strings.Contains(s, "xx").
unfoldable pub has_twice : ℕ → Text → Bool
has_twice x [] = false
has_twice x (c ∷ []) = false
has_twice x (c ∷ (d ∷ s)) = (c == x && d == x) || has_twice x (d ∷ s)

-- strings.Split at a one-rune separator; `current` is the part that is being read.
unfoldable pub split_from : ℕ → Text → Text → List Text
split_from x current [] = current ∷ []
split_from x current (c ∷ s) =
    let next = split_from x [] s in
    let more = split_from x (current ++ c ∷ []) s in if c == x then current ∷ next else more

-- The byte or rune at the front, and at the end, of a text that is not empty.
abbrev pub first_or : ℕ → Text → ℕ
first_or d [] = d
first_or d (c ∷ s) = c

abbrev pub last_or : ℕ → Text → ℕ
last_or d [] = d
last_or d (c ∷ s) = last_or c s

abbrev pub every : (ℕ → Bool) → Text → Bool
every p [] = true
every p (c ∷ s) = p c && every p s

abbrev pub text_eq : Text → Text → Bool
text_eq [] [] = true
text_eq [] (d ∷ t) = false
text_eq (c ∷ s) [] = false
text_eq (c ∷ s) (d ∷ t) = c == d && text_eq s t

-- strings.ToLower on ASCII, where it is called.
unfoldable pub lower : ℕ → ℕ
lower c = if leb 65 c && leb c 90 then c + 32 else c

unfoldable pub to_lower : Text → Text
unfolding lower
to_lower [] = []
to_lower (c ∷ s) = lower c ∷ to_lower s

-- strings.Join of strings.Fields with one space. `pending` is the separator that is due before the
-- next field, and `inside` tells whether a field is being read.
unfoldable pub squeeze_from : Bool → Bool → Text → Text
squeeze_from started inside [] = []
squeeze_from started inside (c ∷ s) =
    let skip = squeeze_from started false s in
    let keep = c ∷ squeeze_from true true s in
    if is_space c then skip else if started && not inside then 32 ∷ keep else keep

unfoldable pub join_fields : Text → Text
unfolding squeeze_from
join_fields s = squeeze_from false false s
