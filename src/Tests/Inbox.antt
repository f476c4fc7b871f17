-- ===== src/Tests/Inbox.antt =====
-- The test inbox at concrete inputs.
use personalized_email_pipel.Prelude.{
  ℕ, ◌≡◌, refl, false, if◌then◌else◌, List, [], ◌∷◌, Option, none, some, ◌⊎◌, inr,
}
use personalized_email_pipel.Campaign.Model.{Text}
use personalized_email_pipel.Campaign.Text.{
  codes, text_eq, to_lower, trim_space, trim_left, trim_right, is_space, byte_len, count_rune, cut,
  has_twice, split_from,
}
use personalized_email_pipel.Distributed.Requests.{terminal_completed, terminal_failed, no_reason}
use personalized_email_pipel.Distributed.Worker.Commits.{quiet_round}
use personalized_email_pipel.Distributed.Worker.{Round, delivery_commit}
use personalized_email_pipel.TestInbox.Deliveries.{
  IsSent, IsDeliveryReason, delivery_commit-deliver,
}
use personalized_email_pipel.TestInbox.Safety.{IsSafe, parse_config-IsSafe}
use personalized_email_pipel.TestInbox.{
  Strings, Config, MailAnswers, send_error, ambiguous_failed, deliver, parse_config,
  validate_config, normalize_address, normalize_all, allowlist_of,
}

-- The standard library's functions on the texts of this module.
abbrev pub port_of : Text → Option ℕ
port_of raw = if text_eq raw (codes "2525") then some 2525 else none

abbrev pub strings : Strings
strings = record { lower_all = to_lower; atoi = port_of; parse_duration = λ raw. none }

abbrev entries : List (Text × Text)
entries =
    (codes "EMAIL_PIPELINE_SMTP_HOST", codes "mail.test")
    ∷ (codes "EMAIL_PIPELINE_SMTP_PORT", codes " 2525")
    ∷ (codes "EMAIL_PIPELINE_SMTP_USERNAME", codes "user")
    ∷ (codes "EMAIL_PIPELINE_SMTP_PASSWORD", codes "secret")
    ∷ (codes "EMAIL_PIPELINE_SMTP_FROM", codes "Sender@Mail.test")
    ∷ (codes "EMAIL_PIPELINE_TEST_DESTINATION", codes "inbox@mail.test")
    ∷ (codes "EMAIL_PIPELINE_TEST_ALLOWLIST", codes "other@mail.test, INBOX@mail.test,")
    ∷ []

abbrev value_in : List (Text × Text) → Text → Text
value_in [] key = []
value_in ((k, v) ∷ rest) key = if text_eq k key then v else value_in rest key

abbrev parsed : Config
parsed = record {
  host = codes "mail.test";
  port = 2525;
  username = codes "user";
  password = codes "secret";
  from_address = codes "sender@mail.test";
  destination = codes "inbox@mail.test";
  allowlist = codes "other@mail.test" ∷ codes "inbox@mail.test" ∷ [];
  timeout = 15000000000;
}

parsed_lem : parse_config strings (value_in entries) ≡ inr parsed
unfolding parse_config validate_config normalize_address normalize_all allowlist_of to_lower
    trim_space trim_left trim_right is_space byte_len count_rune cut has_twice split_from
parsed_lem = refl

parse_config-IsSafe_example : IsSafe parsed
parse_config-IsSafe_example = parse_config-IsSafe strings (value_in entries) parsed parsed_lem

-- The connection breaks behind the message.
abbrev broken : MailAnswers
broken = record {
  client_failed = false;
  from_failed = false;
  to_failed = false;
  dial_failed = false;
  send = send_error ambiguous_failed;
}

abbrev round : Round
round = quiet_round 1000000 500 2000000 (deliver false broken)

delivery_commit-deliver_example :
    (IsSent false broken
      × ((delivery_commit 1 (codes "ab") round).state ≡ terminal_completed)
      × ((delivery_commit 1 (codes "ab") round).digest ≡ codes "ab")
      × ((delivery_commit 1 (codes "ab") round).reason_name ≡ no_reason))
    ⊎ ((IsSent false broken → ⊥)
        × ((delivery_commit 1 (codes "ab") round).state ≡ terminal_failed)
        × ((delivery_commit 1 (codes "ab") round).digest ≡ [])
        × IsDeliveryReason (delivery_commit 1 (codes "ab") round).reason_name)
delivery_commit-deliver_example = delivery_commit-deliver 1 (codes "ab") round false broken refl
