-- ===== src/TestInbox.antt =====
-- internal/testinbox: the configuration of the test inbox (config.go) and what comes of a delivery
-- (smtp.go). strings.ToLower, strconv.Atoi, time.ParseDuration and the mail library are parameters.
pub mod Safety
pub mod Deliveries
use personalized_email_pipel.Prelude.{
  ℕ, ◌+◌, Bool, true, false, not, ◌&&◌, ◌||◌, List, [], ◌∷◌, map, Option, none, some, ◌⊎◌, inl, inr,
  ltb, ◌==◌, if◌then◌else◌, length,
}
use personalized_email_pipel.Prelude.Int64.{lt64}
use personalized_email_pipel.Campaign.Model.{Text}
use personalized_email_pipel.Campaign.Text.{
  codes, byte_len, trim_space, count_rune, cut, has_twice, split_from, text_eq,
}

-- testinbox.DeliveryResult; the zero status and any other number is `delivery_other`.
pub data DeliveryStatus : Type 0 where
  delivery_confirmed delivery_rejected delivery_transport : DeliveryStatus
  delivery_indeterminate delivery_other : DeliveryStatus

pub record DeliveryResult : Type 0 where
  pub status : DeliveryStatus
  pub failed : Bool  -- Err != nil

-- The numbers are 64-bit patterns; a duration is in nanoseconds.
pub record Config : Type 0 where
  pub host : Text
  pub port : ℕ
  pub username : Text
  pub password : Text
  pub from_address : Text
  pub destination : Text
  pub allowlist : List Text
  pub timeout : ℕ

abbrev pub default_timeout : ℕ
default_timeout = 15000000000

pub data ConfigError : Type 0 where
  invalid_config destination_not_allowed : ConfigError

-- strings.ToLower, and the results of strconv.Atoi and time.ParseDuration, `none` for an error.
pub record Strings : Type 0 where
  pub lower_all : Text → Text
  pub atoi : Text → Option ℕ
  pub parse_duration : Text → Option ℕ

abbrev pub contains_rune : ℕ → Text → Bool
contains_rune x s = not (count_rune x s == 0)

abbrev pub is_blank : Text → Bool
is_blank [] = true
is_blank (c ∷ s) = false

-- strings.Contains of each of the four blanks, and of "..".
abbrev pub has_gap : Text → Bool
has_gap v =
    contains_rune b' ' v
    || contains_rune b'\t' v
    || contains_rune b'\r' v
    || contains_rune b'\n' v
    || has_twice b'.' v

abbrev bad_length : Text → Bool
bad_length v = is_blank v || ltb 254 (byte_len v) || not (count_rune b'@' v == 1)

-- The parts are those around the only '@'.
abbrev bad_parts : Text × Text → Bool
bad_parts (local, domain) =
    is_blank local
    || ltb 64 (byte_len local)
    || ltb (byte_len domain) 3
    || not (contains_rune b'.' domain)

abbrev pub is_member : Text → List Text → Bool
is_member v [] = false
is_member v (w ∷ ws) = text_eq w v || is_member v ws

abbrev cons_option : Option Text → Option (List Text) → Option (List Text)
cons_option (some v) (some vs) = some (v ∷ vs)
cons_option _ _ = none

abbrev bad_fields : Config → Bool
bad_fields c =
    is_blank c.host
    || lt64 c.port 1
    || lt64 65535 c.port
    || is_blank c.username
    || is_blank c.password
    || not (lt64 0 c.timeout)

module _ (S : Strings) where
  -- normalizeAddress.
  unfoldable pub normalize_address : Text → Option Text
  normalize_address raw =
      let v = S.lower_all (trim_space raw) in
      if bad_length v
      then none
      else if bad_parts (cut b'@' v)
      then none
      else if has_gap v
      then none
      else some v

  unfoldable pub normalize_all : List Text → Option (List Text)
  normalize_all [] = some []
  normalize_all (v ∷ vs) = cons_option (normalize_address v) (normalize_all vs)

  is_allowed : Config → Text → Text → List Text → ConfigError ⊎ Config
  is_allowed c sender destination allowed =
      if is_member destination allowed
      then inr (record c { from_address = sender; destination = destination; allowlist = allowed })
      else inl destination_not_allowed

  with_addresses : Config → Option Text → Option Text → Option (List Text) → ConfigError ⊎ Config
  with_addresses c (some sender) (some destination) (some (a ∷ allowed)) =
      is_allowed c sender destination (a ∷ allowed)
  with_addresses c _ _ _ = inl invalid_config

  -- validateConfig.
  unfoldable pub validate_config : Config → ConfigError ⊎ Config
  unfolding with_addresses is_allowed
  validate_config c =
      if bad_fields c
      then inl invalid_config
      else with_addresses c (normalize_address c.from_address) (normalize_address c.destination)
          (normalize_all c.allowlist)

  -- The entries of a list between commas, trimmed, without the empty ones.
  unfoldable pub allowlist_of : List Text → List Text
  allowlist_of [] = []
  allowlist_of (raw ∷ raws) =
      let rest = allowlist_of raws in
      if is_blank (trim_space raw) then rest else trim_space raw ∷ rest

  parse_timeout : Text → Option ℕ
  parse_timeout raw = if is_blank raw then some default_timeout else S.parse_duration raw

  config_of : (Text → Text) → Option ℕ → Option ℕ → ConfigError ⊎ Config
  config_of values (some port) (some timeout) = validate_config (record {
    host = trim_space (values (codes "EMAIL_PIPELINE_SMTP_HOST"));
    port = port;
    username = values (codes "EMAIL_PIPELINE_SMTP_USERNAME");
    password = values (codes "EMAIL_PIPELINE_SMTP_PASSWORD");
    from_address = trim_space (values (codes "EMAIL_PIPELINE_SMTP_FROM"));
    destination = trim_space (values (codes "EMAIL_PIPELINE_TEST_DESTINATION"));
    allowlist = allowlist_of (split_from b',' [] (values (codes "EMAIL_PIPELINE_TEST_ALLOWLIST")));
    timeout = timeout;
  })
  config_of values _ _ = inl invalid_config

  -- ParseConfig; a missing key has an empty value.
  unfoldable pub parse_config : (Text → Text) → ConfigError ⊎ Config
  unfolding config_of parse_timeout
  parse_config values =
      config_of values (S.atoi (trim_space (values (codes "EMAIL_PIPELINE_SMTP_PORT"))))
        (parse_timeout (trim_space (values (codes "EMAIL_PIPELINE_SMTP_TIMEOUT"))))

-- The reason of a mail.SendError.
pub data SendReason : Type 0 where
  rcpt_to_failed data_failed data_close_failed write_content_failed conn_check_failed : SendReason
  ambiguous_failed other_reason : SendReason

-- What SendWithSMTPClient returns: nil, a mail.SendError, or another error.
pub data SendAnswer : Type 0 where
  sent other_send_error : SendAnswer
  send_error : SendReason → SendAnswer

-- What each call of the mail library returns, true for an error.
pub record MailAnswers : Type 0 where
  pub client_failed : Bool
  pub from_failed : Bool
  pub to_failed : Bool
  pub dial_failed : Bool
  pub send : SendAnswer

abbrev pub result_failed : DeliveryStatus → DeliveryResult
result_failed status = record { status = status; failed = true }

-- classifySendError.
abbrev pub classify_reason : SendReason → DeliveryResult
classify_reason rcpt_to_failed = result_failed delivery_rejected
classify_reason data_failed = result_failed delivery_rejected
classify_reason other_reason = result_failed delivery_transport
classify_reason _ = result_failed delivery_indeterminate

abbrev pub delivered : SendAnswer → DeliveryResult
delivered sent = record { status = delivery_confirmed; failed = false }
delivered (send_error r) = classify_reason r
delivered other_send_error = result_failed delivery_indeterminate

-- deliver.
unfoldable pub deliver : Bool → MailAnswers → DeliveryResult
deliver context_done m =
    if context_done
    then result_failed delivery_transport
    else if m.client_failed || m.from_failed || m.to_failed
    then result_failed delivery_rejected
    else if m.dial_failed
    then result_failed delivery_transport
    else delivered m.send
