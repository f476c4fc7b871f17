-- ===== src/Command/Web/Origins.antt =====
-- cmd/email-pipeline/web_origin.go: which posts of a browser are allowed.
use personalized_email_pipel.Prelude.{
  ℕ, ◌≡◌, refl, Bool, true, false, ◌&&◌, List, [], ◌∷◌, Option, none, some, ◌==◌, arith, Bool-cases,
  inl, inr,
}
use personalized_email_pipel.Campaign.Model.{Text}
use personalized_email_pipel.Campaign.Text.{codes, text_eq}
use personalized_email_pipel.Command.Web.{
  Url, BrowserRequest, Urls, is_same_host, is_single_match, sender_matches, allows_browser_post,
}

text_eq_sound : (s t : Text) → text_eq s t ≡ true → s ≡ t
text_eq_sound [] [] h = refl
text_eq_sound [] (d ∷ t) h = ground arith
text_eq_sound (c ∷ s) [] h = ground arith
text_eq_sound (c ∷ s) (d ∷ t) h =
    let q = text_eq_sound s t (right (c == d) (text_eq s t) h) in
    rw (q, head c d (left (c == d) (text_eq s t) h)) refl
  where
    left : (a b : Bool) → (a && b) ≡ true → a ≡ true
    left a b h = ground arith

    right : (a b : Bool) → (a && b) ≡ true → b ≡ true
    right a b h = ground arith

    head : (c d : ℕ) → (c == d) ≡ true → c ≡ d
    head c d h = ground arith

module _ (U : Urls) where
  -- The one value is a plain http URL of the console's own host.
  pub record IsOwnPage (host value : Text) : Type 0 where
    pub url : Url
    pub parsed : U.parse_url value ≡ some url
    pub over_http : U.equal_fold url.scheme (codes "http") ≡ true
    pub no_user : url.has_user ≡ false
    pub own_host : url.host ≡ host

  -- Where a request comes from: an Origin header, else a Referer header, else neither.
  abbrev pub ComesFromHere : Text → Option (List Text) → Option (List Text) → Type 0
  ComesFromHere host (some values) referer = (v : Text) × (values ≡ v ∷ []) × IsOwnPage host v
  ComesFromHere host none (some values) = (v : Text) × (values ≡ v ∷ []) × IsOwnPage host v
  ComesFromHere host none none = Unit {0}

  same_host-IsOwnPage :
      (host value : Text) (from_origin : Bool) (o : Option Url)
      → U.parse_url value ≡ o
      → is_same_host U host from_origin o ≡ true
      → IsOwnPage host value
  unfolding is_same_host
  same_host-IsOwnPage host value b none e h = ground arith
  same_host-IsOwnPage host value b (some u) e h = record {
    url = u;
    parsed = e;
    over_http = ground arith;
    no_user = ground arith;
    own_host = text_eq_sound u.host host (ground arith);
  }

  single_match-IsOwnPage :
      (host : Text) (from_origin : Bool) (values : List Text)
      → is_single_match U host from_origin values ≡ true
      → (v : Text) × (values ≡ v ∷ []) × IsOwnPage host v
  unfolding is_single_match
  single_match-IsOwnPage host b [] h = ground arith
  single_match-IsOwnPage host b (v ∷ []) h =
      (v, refl, same_host-IsOwnPage host v b (U.parse_url v) refl h)
  single_match-IsOwnPage host b (v ∷ w ∷ vs) h = ground arith

  matches-ComesFromHere :
      (host : Text) (origin referer : Option (List Text))
      → sender_matches U host origin referer ≡ true
      → ComesFromHere host origin referer
  unfolding sender_matches
  matches-ComesFromHere host (some values) referer h = single_match-IsOwnPage host true values h
  matches-ComesFromHere host none (some values) h = single_match-IsOwnPage host false values h
  matches-ComesFromHere host none none h = tt

  -- A post that allowsBrowserPost allows does not call itself cross-site, and a browser that says where
  -- it comes from, in Origin or else in Referer, names one URL, over http, without a user, on the host
  -- that the request was sent to.
  pub allows_browser_post-ComesFromHere :
      (r : BrowserRequest)
      → allows_browser_post U r ≡ true
      → (U.equal_fold r.fetch_site (codes "cross-site") ≡ false)
        × ComesFromHere r.host r.origin r.referer
  unfolding allows_browser_post
  allows_browser_post-ComesFromHere r h =
      elim (Bool-cases (U.equal_fold r.fetch_site (codes "cross-site"))) [
        | inl e ↦ let q = rw e at h in ground arith
        | inr e ↦ (e, matches-ComesFromHere r.host r.origin r.referer (rw e at h))
      ]
