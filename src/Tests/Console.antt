-- ===== src/Tests/Console.antt =====
-- The web console's handlers at concrete inputs (cmd/email-pipeline/web_test.go and
-- web_lifecycle_test.go have such requests).
use personalized_email_pipel.Prelude.{
  ℕ, ◌<◌, ◌≡◌, refl, true, false, List, [], ◌∷◌, ◌==◌, ◌⊎◌, ◌++◌, none, some, arith, if◌then◌else◌,
}
use personalized_email_pipel.Prelude.Int64.{modulus}
use personalized_email_pipel.Campaign.Loop.{Next, Turn, wait_timer}
use personalized_email_pipel.Campaign.Model.{Text}
use personalized_email_pipel.Campaign.Text.{
  codes, text_eq, split_from, cut, trim_space, trim_left, trim_right, byte_len, rune_len, is_space,
}
use personalized_email_pipel.Command.Handler.Pages.{any_plain}
use personalized_email_pipel.Command.Controller.{admits, cancels, idle}
use personalized_email_pipel.Command.Handler.Evaluation.{evaluate, generated_web_source}
use personalized_email_pipel.Command.Handler.Evaluation.Accounts.{Reported, evaluate-Reported}
use personalized_email_pipel.Command.Handler.Evaluation.Leases.{Settles}
use personalized_email_pipel.Command.Handler.Routes.{serve_http}
use personalized_email_pipel.Command.Handler.Routes.Leases.{Leaves, serve_http-Settles}
use personalized_email_pipel.Command.Server.{
  Net, BoundAuthority, listener_authority_from_string, loopback_listen_address, serve_authority,
}
use personalized_email_pipel.Command.Server.Hosts.{IsLoopbackAt, IsLocal, serve_authority-IsLocal}
use personalized_email_pipel.Command.Handler.{Console, Visit, WebRequest, get, post}
use personalized_email_pipel.Tests.Web.{
  machine, form, evaluation, form_accepted, urls, own_post, own_post_allowed, number_of,
}
use personalized_email_pipel.Tests.Worker.{random}

-- Templates that write the run's outcome, or nothing.
abbrev console : Console
console = record {
  execute_page = λ name page. some (name ++ page.result);
  execute_preview = λ preview. some preview.html;
  execute_field = λ field form. some field;
  report_bytes = λ document. codes "report";
  duration_text = λ n. codes "1s";
  count_of = λ body part. 1;
  replace_first = λ body old new. body ++ new;
  machine = machine;
  urls = urls;
  random = random;
}

abbrev evaluation_request : WebRequest
evaluation_request = record {
  path = codes "/evaluate";
  method = post;
  browser = own_post;
  form = form;
  hx_request = true;
  run_id = codes "a1";
  accept = codes "text/html;q=0.9, text/plain";
  query_format = [];
}

abbrev quiet : Turn
quiet = record {
  cancelled = false;
  now = 0;
  deadline_now = 0;
  read_now = 0;
  results = [];
  ready = true;
  wait = wait_timer;
}

-- While the request is served, another asks for a run, and a third cancels this one.
abbrev visit : Visit
visit = record {
  request = evaluation_request;
  page_id = codes "01";
  result_id = codes "02";
  between = admits true (codes "b2") ∷ cancels (codes "a1") ∷ [];
  turns = quiet ∷ quiet ∷ [];
  elapsed = 7;
  peak = 8;
  response_bound = 9;
  measured = 10;
  duration = 11;
}

serve_http-Settles_example : Settles idle (serve_http console idle visit)
serve_http-Settles_example = serve_http-Settles console idle visit refl

number_of-int64 : (raw : Text) (n : ℕ) → number_of raw ≡ some n → n < modulus
number_of-int64 raw n h = ground (arith, h)

evaluate-Reported_example :
    (xs : List Next) × (generated_web_source console evaluation ≡ some xs)
    × Reported console visit evaluation xs (evaluate console idle visit).1
unfolding any_plain split_from cut trim_space trim_left trim_right byte_len rune_len is_space
evaluate-Reported_example =
    evaluate-Reported console idle visit evaluation number_of-int64 (omega arith)
      (record {
        posted = refl;
        allowed = own_post_allowed;
        valid = form_accepted;
        identified = refl;
        idle = refl;
        not_closed = refl;
      })
      refl refl

-- One address is known, and it is the loopback one.
abbrev net : Net
net = record {
  Ip = ℕ;
  parse_ip = λ host. if text_eq host (codes "127.0.0.1") then some 1 else none;
  to4 = λ ip. some ip;
  to16 = λ ip. ip;
  equal = λ a b. a == b;
  is_loopback = λ ip. ip == 1;
  split_host_port = λ address.
      if text_eq address (codes "127.0.0.1:8080")
      then some (codes "127.0.0.1", codes "8080")
      else none;
  parse_port = λ digits. if text_eq digits (codes "8080") then some 8080 else none;
}

abbrev bound : BoundAuthority net
bound = record { ip = 1; port = 8080 }

listen_accepted :
    loopback_listen_address net (codes "127.0.0.1:8080") ≡ some (codes "127.0.0.1:8080")
unfolding loopback_listen_address
listen_accepted = refl

bound_address : listener_authority_from_string net (codes "127.0.0.1:8080") ≡ some bound
unfolding listener_authority_from_string
bound_address = refl

-- The address bar of a browser asks for /evaluate.
abbrev plain_visit : Visit
plain_visit = record visit { request = record evaluation_request { method = get } }

serve_authority-IsLocal_example :
    IsLoopbackAt net bound (codes "127.0.0.1:8080")
    × (Leaves idle (serve_authority net bound console idle plain_visit)
        ⊎ IsLocal net bound console plain_visit.request)
serve_authority-IsLocal_example =
    serve_authority-IsLocal net (codes "127.0.0.1:8080") (codes "127.0.0.1:8080")
      (codes "127.0.0.1:8080") bound console idle plain_visit listen_accepted refl bound_address
