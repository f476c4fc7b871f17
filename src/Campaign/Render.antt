-- ===== src/Campaign/Render.antt =====
-- internal/campaign/render.go: the message of a recipient, and the text of a sample. The package
-- html's EscapeString and the decimal digits of strconv.FormatInt are written out as documented; a
-- sample's ordinal is not negative.
pub mod Lines
use personalized_email_pipel.Prelude.{
  ℕ, zero, suc, ◌+◌, ◌-◌, ◌*◌, ◌/◌, ◌%◌, Bool, true, false, not, ◌||◌, List, [], ◌∷◌, ◌++◌, Option,
  none, some, ltb, leb, ◌==◌, if◌then◌else◌, length,
}
use personalized_email_pipel.Campaign.Model.{Text, Category, named, fallback, Recipient}
use personalized_email_pipel.Campaign.Normalize.{usable_name}
use personalized_email_pipel.Campaign.Text.{codes, text_eq}

abbrev promotion : Text
promotion = codes "Exclusive offer: save 20% on your next purchase."

abbrev subject : Text
subject = codes "Your exclusive offer"

pub data Format : Type 0 where
  text_format html_format : Format

-- ParseFormat: `none` is ErrInvalidFormat.
unfoldable pub parse_format : Text → Option Format
parse_format raw =
    if length raw == 0 || text_eq raw (codes "text")
    then some text_format
    else if text_eq raw (codes "html")
    then some html_format
    else none

-- Format.String.
abbrev pub format_string : Format → Text
format_string html_format = codes "html"
format_string text_format = codes "text"

pub record RenderedMessage : Type 0 where
  pub format : Format
  pub body : Text

-- html.EscapeString of one rune.
unfoldable pub escape_rune : ℕ → Text
escape_rune c =
    if c == b'<'
    then codes "&lt;"
    else if c == b'>'
    then codes "&gt;"
    else if c == b'&'
    then codes "&amp;"
    else if c == 39
    then codes "&#39;"
    else if c == b'"'
    then codes "&#34;"
    else c ∷ []

unfoldable pub escape : Text → Text
unfolding escape_rune
escape [] = []
escape (c ∷ s) = escape_rune c ++ escape s

abbrev newline : Text
newline = 10 ∷ []

unfoldable pub greeting : Text × Bool → Text
greeting (name, is_named) =
    if is_named then codes "Hello " ++ name ++ codes "," else codes "Hello there,"

unfoldable pub html_body : Text → Text
html_body hello =
    codes "<!doctype html><html><head><meta charset=\"utf-8\"><title>"
    ++ subject
    ++ codes "</title></head><body><h1>"
    ++ subject
    ++ codes "</h1><p>"
    ++ escape hello
    ++ codes "</p><p>"
    ++ promotion
    ++ codes "</p></body></html>"
    ++ newline

unfoldable pub text_body : Text → Text
text_body hello =
    codes "Subject: "
    ++ subject
    ++ newline
    ++ newline
    ++ hello
    ++ newline
    ++ newline
    ++ promotion
    ++ newline

body_of : Format → Text → RenderedMessage
body_of html_format hello = record { format = html_format; body = html_body hello }
body_of text_format hello = record { format = text_format; body = text_body hello }

-- RenderMessage.
unfoldable pub render_message : Recipient → Format → RenderedMessage × Category
unfolding body_of
render_message recipient format =
    let used = usable_name recipient.name in
    (body_of format (greeting used), if used.1 then named else fallback)

-- strconv.FormatInt: 19 digits are enough for an int64.
unfoldable pub decimal_from : ℕ → ℕ → Text
decimal_from zero n = []
decimal_from (suc fuel) n =
    let rest = decimal_from fuel (n / 10) in
    if ltb n 10 then (b'0' + n) ∷ [] else rest ++ (b'0' + n % 10) ∷ []

unfoldable pub repeat : ℕ → ℕ → Text
repeat zero c = []
repeat (suc n) c = c ∷ repeat n c

unfoldable pub left_pad_ordinal : ℕ → Text
unfolding decimal_from repeat
left_pad_ordinal ordinal =
    let s = decimal_from 20 ordinal in
    if leb 6 (length s) then s else repeat (6 - length s) b'0' ++ s

synthetic_for : Category → Text → Text
synthetic_for named label = codes "Hello " ++ label ++ codes ", [promotion rendered]"
synthetic_for fallback label = codes "Hello there, [promotion rendered for " ++ label ++ codes "]"

-- SyntheticSample.
unfoldable pub synthetic_sample : ℕ → Category → Text
unfolding synthetic_for
synthetic_sample ordinal category =
    synthetic_for category (codes "recipient-" ++ left_pad_ordinal ordinal)
