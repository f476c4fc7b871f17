-- ===== src/Campaign/Normalize.antt =====
-- internal/campaign/normalize.go: which addresses are accepted, under which identity, and which
-- names are used. A result `(value, ok)` of NormalizeEmail is an option.
use personalized_email_pipel.Prelude.{
  ℕ, Bool, true, false, not, ◌&&◌, ◌||◌, List, [], ◌∷◌, map, Option, none, some, ltb, leb, ◌==◌,
  if◌then◌else◌, length,
}
use personalized_email_pipel.Campaign.Model.{Text}
use personalized_email_pipel.Campaign.Text.{
  is_control, byte_len, trim_space, count_rune, cut, has_twice, split_from, first_or, last_or,
  every, to_lower, join_fields, codes,
}

abbrev pub max_email_length : ℕ
max_email_length = 254

abbrev pub max_local_length : ℕ
max_local_length = 64

unfoldable pub is_ascii_alpha_numeric : ℕ → Bool
is_ascii_alpha_numeric r =
    leb b'a' r && leb r b'z' || leb b'A' r && leb r b'Z' || leb b'0' r && leb r b'9'

abbrev member : ℕ → Text → Bool
member x [] = false
member x (c ∷ s) = c == x || member x s

unfoldable pub local_rune : ℕ → Bool
unfolding is_ascii_alpha_numeric
local_rune r = is_ascii_alpha_numeric r || member r (codes ".!#$%&'*+-/=?^_`{|}~")

unfoldable pub valid_local : Text → Bool
valid_local local =
    if length local == 0
      || ltb max_local_length (byte_len local)
      || first_or 0 local == b'.'
      || last_or 0 local == b'.'
      || has_twice b'.' local
    then false
    else every local_rune local

unfoldable pub label_rune : ℕ → Bool
unfolding is_ascii_alpha_numeric
label_rune r = is_ascii_alpha_numeric r || r == b'-'

unfoldable pub valid_label : Text → Bool
valid_label label =
    if length label == 0
      || ltb 63 (byte_len label)
      || first_or 0 label == b'-'
      || last_or 0 label == b'-'
    then false
    else every label_rune label

unfoldable pub every_label : List Text → Bool
every_label [] = true
every_label (l ∷ ls) = valid_label l && every_label ls

unfoldable pub valid_domain : Text → Bool
valid_domain domain =
    if length domain == 0 || ltb 253 (byte_len domain) || has_twice b'.' domain
    then false
    else let labels = split_from b'.' [] domain in
      if ltb (length labels) 2 then false else every_label labels

unfoldable pub ascii_printable : Text → Bool
ascii_printable = every (λ r. not (ltb r 33 || ltb 126 r))

-- NormalizeEmail.
unfoldable pub normalize_email : Text → Option Text
normalize_email raw =
    let email = trim_space raw in
    let parts = cut b'@' email in
    if length email == 0 || ltb max_email_length (byte_len email) || not (ascii_printable email)
    then none
    else if not (count_rune b'@' email == 1)
    then none
    else if not (valid_local parts.0) || not (valid_domain parts.1)
    then none
    else some (to_lower email)

-- The function that UsableName hands to strings.Map.
unfoldable pub blank_control : ℕ → ℕ
blank_control r = if is_control r then b' ' else r

-- UsableName.
unfoldable pub usable_name : Text → Text × Bool
usable_name raw =
    let name = join_fields (trim_space (map blank_control raw)) in (name, not (length name == 0))
