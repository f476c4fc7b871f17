-- ===== src/TestInbox/Safety.antt =====
-- internal/testinbox/config.go: what an accepted configuration is.
use personalized_email_pipel.Prelude.{
  ℕ, ◌%◌, ◌≤◌, ◌≡◌, refl, subst, Bool, true, false, ◌||◌, List, [], ◌∷◌, Option, none, some, ◌⊎◌,
  inl, inr, if◌then◌else◌, All, arith, Bool-cases,
}
use personalized_email_pipel.Prelude.Int64.{modulus, lt64}
use personalized_email_pipel.Campaign.Model.{Text}
use personalized_email_pipel.Campaign.Text.{byte_len, trim_space, count_rune, cut}
use personalized_email_pipel.TestInbox.{
  Config, ConfigError, invalid_config, Strings, is_blank, has_gap, bad_length, bad_parts, is_member,
  normalize_address, normalize_all, cons_option, bad_fields, is_allowed, with_addresses,
  validate_config, config_of, parse_config,
}

-- An address that adds no line and no second address to a header.
pub record IsAddress (v : Text) : Type 0 where
  pub short : byte_len v ≤ 254
  pub one_at : count_rune b'@' v ≡ 1
  pub no_space : count_rune b' ' v ≡ 0
  pub no_tab : count_rune b'\t' v ≡ 0
  pub no_return : count_rune b'\r' v ≡ 0
  pub no_line_feed : count_rune b'\n' v ≡ 0

pub record IsSafe (c : Config) : Type 0 where
  pub has_host : is_blank c.host ≡ false
  pub has_username : is_blank c.username ≡ false
  pub has_password : is_blank c.password ≡ false
  pub has_port : (1 ≤ c.port % modulus) × (c.port % modulus ≤ 65535)
  pub has_timeout : lt64 0 c.timeout ≡ true
  pub safe_sender : IsAddress c.from_address
  pub safe_destination : IsAddress c.destination
  pub safe_allowlist : All IsAddress c.allowlist
  pub allowed : is_member c.destination c.allowlist ≡ true

or_left : (a b : Bool) → (a || b) ≡ false → a ≡ false
or_left a b h = ground arith

IsAddress-checks : (v : Text) → bad_length v ≡ false → has_gap v ≡ false → IsAddress v
IsAddress-checks v h g = record {
  short = ground arith;
  one_at = ground arith;
  no_space = ground arith;
  no_tab = ground arith;
  no_return = ground arith;
  no_line_feed = ground arith;
}

-- A text that passes three checks.
thrice :
    (a b c : Bool) (v w : Text)
    → (if a then none else if b then none else if c then none else some v) ≡ some w
    → (a ≡ false) × (c ≡ false) × (v ≡ w)
thrice true b c v w h = ground arith
thrice false true c v w h = ground arith
thrice false false true v w h = ground arith
thrice false false false v w h = (refl, refl, cc)

cons_shape :
    (o : Option Text) (p : Option (List Text)) (vs : List Text)
    → cons_option o p ≡ some vs
    → (v : Text) × (ws : List Text) × (o ≡ some v) × (p ≡ some ws) × (v ∷ ws ≡ vs)
cons_shape none none vs h = ground arith
cons_shape none (some ws) vs h = ground arith
cons_shape (some v) none vs h = ground arith
cons_shape (some v) (some ws) vs h = (v, ws, refl, refl, cc)

port_range :
    (p : ℕ) → lt64 p 1 ≡ false → lt64 65535 p ≡ false → (1 ≤ p % modulus) × (p % modulus ≤ 65535)
port_range p h k = ground arith

bad_then :
    (b : Bool) (e : ConfigError) (x : ConfigError ⊎ Config) (c : Config)
    → (if b then inl e else x) ≡ inr c
    → (b ≡ false) × (x ≡ inr c)
bad_then true e x c h = ground arith
bad_then false e x c h = (refl, h)

module _ (S : Strings) where
  normalize_address-IsAddress : (raw v : Text) → normalize_address S raw ≡ some v → IsAddress v
  unfolding normalize_address
  normalize_address-IsAddress raw v h =
      let w = S.lower_all (trim_space raw) in
      let (a, c, e) = thrice (bad_length w) (bad_parts (cut b'@' w)) (has_gap w) w v h in
      IsAddress-checks v (rw e at a) (rw e at c)

  normalize_all-IsAddress :
      (raws vs : List Text) → normalize_all S raws ≡ some vs → All IsAddress vs
  unfolding normalize_all
  normalize_all-IsAddress [] [] h = tt
  normalize_all-IsAddress [] (v ∷ vs) h = ground arith
  normalize_all-IsAddress (raw ∷ raws) vs h =
      let (v, ws, a, b, e) = cons_shape (normalize_address S raw) (normalize_all S raws) vs h in
      subst (All IsAddress) e
        (normalize_address-IsAddress raw v a, normalize_all-IsAddress raws ws b)

  is_allowed-IsSafe :
      (c c' : Config) (sender destination : Text) (allowed : List Text)
      → bad_fields c ≡ false
      → IsAddress sender
      → IsAddress destination
      → All IsAddress allowed
      → is_allowed S c sender destination allowed ≡ inr c'
      → IsSafe c'
  unfolding is_allowed
  is_allowed-IsSafe c c' sender destination allowed h a b d e =
      elim (Bool-cases (is_member destination allowed)) [
        | inl q ↦ subst IsSafe (right _ c' (rw q at e)) (record {
          has_host = ground arith;
          has_username = ground arith;
          has_password = ground arith;
          has_port = port_range c.port (ground arith) (ground arith);
          has_timeout = ground arith;
          safe_sender = a;
          safe_destination = b;
          safe_allowlist = d;
          allowed = q;
        })
        | inr q ↦ let k = rw q at e in ground arith
      ]
    where
      right : (x y : Config) → ◌≡◌ {A = ConfigError ⊎ Config} (inr x) (inr y) → x ≡ y
      right x y h = cc

  with_addresses-IsSafe :
      (c c' : Config) (x y : Option Text) (z : Option (List Text))
      → bad_fields c ≡ false
      → ((v : Text) → x ≡ some v → IsAddress v)
      → ((v : Text) → y ≡ some v → IsAddress v)
      → ((vs : List Text) → z ≡ some vs → All IsAddress vs)
      → with_addresses S c x y z ≡ inr c'
      → IsSafe c'
  unfolding with_addresses
  with_addresses-IsSafe c c' (some a) (some b) (some (d ∷ ds)) h p q r e =
      is_allowed-IsSafe c c' a b (d ∷ ds) h (p a refl) (q b refl) (r (d ∷ ds) refl) e
  with_addresses-IsSafe c c' (some a) (some b) (some []) h p q r e = ground arith
  with_addresses-IsSafe c c' none y z h p q r e = ground arith
  with_addresses-IsSafe c c' (some a) none z h p q r e = ground arith
  with_addresses-IsSafe c c' (some a) (some b) none h p q r e = ground arith

  pub validate_config-IsSafe : (c c' : Config) → validate_config S c ≡ inr c' → IsSafe c'
  unfolding validate_config
  validate_config-IsSafe c c' h =
      let (fields, e) = bad_then (bad_fields c) invalid_config _ c' h in
      with_addresses-IsSafe c c' (normalize_address S c.from_address)
        (normalize_address S c.destination) (normalize_all S c.allowlist) fields
        (normalize_address-IsAddress c.from_address) (normalize_address-IsAddress c.destination)
        (normalize_all-IsAddress c.allowlist) e

  config_of-IsSafe :
      (values : Text → Text) (port timeout : Option ℕ) (c : Config)
      → config_of S values port timeout ≡ inr c
      → IsSafe c
  unfolding config_of
  config_of-IsSafe values (some port) (some timeout) c h = validate_config-IsSafe _ c h
  config_of-IsSafe values none timeout c h = ground arith
  config_of-IsSafe values (some port) none c h = ground arith

  -- Every configuration that ParseConfig accepts is safe to send with, whatever the environment holds:
  -- there are a host, a user and a password, the port is from 1 to 65535 and the timeout above 0; the
  -- sender, the destination and every address of the allowlist have one '@', no blank or line break,
  -- and 254 bytes at most; and the destination is on the allowlist.
  pub parse_config-IsSafe :
      (values : Text → Text) (c : Config) → parse_config S values ≡ inr c → IsSafe c
  unfolding parse_config
  parse_config-IsSafe values c h = config_of-IsSafe values _ _ c h
