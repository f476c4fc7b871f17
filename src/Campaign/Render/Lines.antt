-- ===== src/Campaign/Render/Lines.antt =====
-- internal/campaign/render.go: the lines and tags of a message.
use personalized_email_pipel.Prelude.{
  ℕ, ◌+◌, ◌≡◌, refl, Bool, true, false, [], ◌∷◌, ◌++◌, map, arith,
}
use personalized_email_pipel.Campaign.Model.{Text, Recipient}
use personalized_email_pipel.Campaign.Normalize.{usable_name, blank_control}
use personalized_email_pipel.Campaign.Render.{
  text_format, html_format, escape, escape_rune, greeting, html_body, text_body, body_of,
  render_message,
}
use personalized_email_pipel.Campaign.Text.{
  count_rune, join_fields, squeeze_from, is_space, trim_space,
}

count_rune-append : (x : ℕ) (s t : Text) → count_rune x (s ++ t) ≡ count_rune x s + count_rune x t
unfolding count_rune
count_rune-append x [] t = omega arith
count_rune-append x (c ∷ s) t = omega (arith, count_rune-append x s t)

-- A line feed is a space, and thus in no field.
no_line_feed : (a b : Bool) (s : Text) → count_rune 10 (squeeze_from a b s) ≡ 0
unfolding count_rune squeeze_from is_space
no_line_feed a b [] = refl
no_line_feed a b (c ∷ s) = ground (arith, no_line_feed a false s, no_line_feed true true s)

-- What UsableName returns has no line feed.
pub usable_name-count_rune : (raw : Text) → count_rune 10 (usable_name raw).0 ≡ 0
unfolding usable_name join_fields
usable_name-count_rune raw = no_line_feed false false (trim_space (map blank_control raw))

count_rune-greeting :
    (used : Text × Bool) → count_rune 10 used.0 ≡ 0 → count_rune 10 (greeting used) ≡ 0
unfolding greeting count_rune
count_rune-greeting (name, true) h = simp count_rune-append (rw h refl)
count_rune-greeting (name, false) h = refl

count_rune-text_body :
    (hello : Text) → count_rune 10 hello ≡ 0 → count_rune 10 (text_body hello) ≡ 5
unfolding text_body count_rune
count_rune-text_body hello h = simp count_rune-append (rw h refl)

no_bracket : (c : ℕ) → count_rune b'<' (escape_rune c) ≡ 0
unfolding escape_rune count_rune
no_bracket c = ground arith

count_rune-escape : (s : Text) → count_rune b'<' (escape s) ≡ 0
unfolding escape count_rune
count_rune-escape [] = refl
count_rune-escape (c ∷ s) =
    rw (count_rune-append b'<' (escape_rune c) (escape s), no_bracket c, count_rune-escape s) refl

count_rune-html_body : (hello : Text) → count_rune b'<' (html_body hello) ≡ 16
unfolding html_body count_rune
count_rune-html_body hello = simp (count_rune-append, count_rune-escape) refl

-- Whatever the name of a recipient, its text message has five line feeds, so that the name adds no
-- header and no line, and its HTML message has sixteen opening brackets, so that the name adds no
-- tag.
pub render_message-count_rune :
    (r : Recipient)
    → (count_rune 10 (render_message r text_format).0.body ≡ 5)
      × (count_rune b'<' (render_message r html_format).0.body ≡ 16)
unfolding render_message body_of
render_message-count_rune r = (
  count_rune-text_body (greeting (usable_name r.name))
      (count_rune-greeting (usable_name r.name) (usable_name-count_rune r.name)),
  count_rune-html_body (greeting (usable_name r.name)),
)
