-- ===== src/Command/Server.antt =====
-- cmd/email-pipeline/web.go: the web command, the address that it listens on, the check of a request's
-- Host in front of the handlers, and the server's end. The net package and net/http's server are
-- parameters: what they answer is an input.
pub mod Hosts
use personalized_email_pipel.Prelude.{
  ℕ, Bool, true, false, not, ◌&&◌, ◌||◌, List, [], ◌∷◌, Option, none, some, ◌==◌, if◌then◌else◌,
}
use personalized_email_pipel.Campaign.Model.{Text}
use personalized_email_pipel.Campaign.Text.{codes}
use personalized_email_pipel.Command.Controller.{Controller, shutdown}
use personalized_email_pipel.Command.Exit.{Exit, static_error, silent}
use personalized_email_pipel.Command.Handler.Routes.{serve_http}
use personalized_email_pipel.Command.Handler.{Console, Visit, Response, forbidden}

-- net.IP, net.ParseIP and the methods of an IP; net.SplitHostPort; strconv.ParseUint of 16 bits. `none`
-- is nil, or an error.
pub record Net : Type 1 where
  pub Ip : Type 0
  pub parse_ip : Text → Option Ip
  pub to4 : Ip → Option Ip
  pub to16 : Ip → Ip
  pub equal : Ip → Ip → Bool
  pub is_loopback : Ip → Bool
  pub split_host_port : Text → Option (Text × Text)
  pub parse_port : Text → Option ℕ

-- What the flags of the web command hold, and how many arguments are left.
pub record WebFlags : Type 0 where
  pub parse_failed : Bool
  pub rest : ℕ
  pub listen : Text

-- How the server ends: Serve returns by itself, or behind a signal. The last field tells whether Serve
-- returned ErrServerClosed, the first of two whether Shutdown returned no error.
pub data ServerEnd : Type 0 where
  serve_returns : Bool → ServerEnd
  signalled : Bool → Bool → ServerEnd

module _ (N : Net) where
  pub record BoundAuthority : Type 0 where
    pub ip : N.Ip
    pub port : ℕ

  same_family : N.Ip → N.Ip → Option N.Ip → Option N.Ip → Bool
  same_family left right (some left4) (some right4) = N.equal left4 right4
  same_family left right _ _ = N.equal (N.to16 left) (N.to16 right)

  -- equalLiteralIP.
  unfoldable pub equal_literal_ip : N.Ip → N.Ip → Bool
  unfolding same_family
  equal_literal_ip left right = same_family left right (N.to4 left) (N.to4 right)

  authority_of : Option ℕ → Option N.Ip → Option BoundAuthority
  authority_of (some port) (some ip) = some (record { ip = ip; port = port })
  authority_of _ _ = none

  split_authority : Option (Text × Text) → Option BoundAuthority
  split_authority none = none
  split_authority (some (host, port)) = authority_of (N.parse_port port) (N.parse_ip host)

  -- listenerAuthorityFromString.
  unfoldable pub listener_authority_from_string : Text → Option BoundAuthority
  unfolding split_authority authority_of
  listener_authority_from_string address = split_authority (N.split_host_port address)

  is_loopback_at : Option ℕ → Option N.Ip → Bool
  is_loopback_at (some port) (some ip) = not (port == 0) && N.is_loopback ip
  is_loopback_at _ _ = false

  is_loopback_address : Option (Text × Text) → Bool
  is_loopback_address none = false
  is_loopback_address (some (host, port)) = is_loopback_at (N.parse_port port) (N.parse_ip host)

  -- loopbackListenAddress: `none` is an error.
  unfoldable pub loopback_listen_address : Text → Option Text
  unfolding is_loopback_address is_loopback_at
  loopback_listen_address address =
      if is_loopback_address (N.split_host_port address) then some address else none

  is_bound_at : BoundAuthority → Option ℕ → Option N.Ip → Bool
  is_bound_at bound (some port) (some ip) = port == bound.port && equal_literal_ip ip bound.ip
  is_bound_at bound _ _ = false

  is_bound_host : BoundAuthority → Option (Text × Text) → Bool
  is_bound_host bound none = false
  is_bound_host bound (some (host, port)) = is_bound_at bound (N.parse_port port) (N.parse_ip host)

  -- hostAuthorityHandler.ServeHTTP, in front of webHandler.ServeHTTP.
  unfoldable pub serve_authority :
      BoundAuthority → Console → Controller → Visit → Controller × Option Response
  unfolding is_bound_host is_bound_at
  serve_authority bound W c v =
      if not (is_bound_host bound (N.split_host_port v.request.browser.host))
      then (c, some forbidden)
      else serve_http W c v

  -- serveWeb: the controller at the end, and whether there is no error.
  unfoldable pub serve_web : Option BoundAuthority → Controller → ServerEnd → Controller × Bool
  serve_web none c e = (c, false)
  serve_web (some bound) c (serve_returns is_closed) = (c, is_closed)
  serve_web (some bound) c (signalled shuts_down is_closed) = (shutdown c, shuts_down && is_closed)

  served_exit : Controller × Bool → Controller × Exit
  served_exit (c, true) = (c, silent 0)
  served_exit (c, false) = (c, static_error (codes "web_unavailable"))

  listened : Option Text → Controller → ServerEnd → Controller × Exit
  listened none c e = (c, static_error (codes "web_unavailable"))
  listened (some bound_address) c e =
      served_exit (serve_web (listener_authority_from_string bound_address) c e)

  listen_at : (Text → Option Text) → Option Text → Controller → ServerEnd → Controller × Exit
  listen_at net_listen none c e = (c, static_error (codes "guard_refused"))
  listen_at net_listen (some address) c e = listened (net_listen address) c e

  -- webCommand: net.Listen gives the address that is bound, and the controller is as the requests left
  -- it when the server ends.
  unfoldable pub web_command :
      WebFlags → (Text → Option Text) → Controller → ServerEnd → Controller × Exit
  unfolding listen_at listened served_exit
  web_command flags net_listen c e =
      if flags.parse_failed || not (flags.rest == 0)
      then (c, static_error (codes "invalid_configuration"))
      else listen_at net_listen (loopback_listen_address flags.listen) c e
