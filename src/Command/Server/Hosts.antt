-- ===== src/Command/Server/Hosts.antt =====
-- cmd/email-pipeline/web.go in front of web_handler.go: which requests reach a run.
use personalized_email_pipel.Prelude.{
  ℕ, ◌≡◌, ◌≢◌, ==_iff, subst, ap, refl, sym, ◌∙◌, ◌⊎◌, inl, inr, Bool, true, false, not, ◌&&◌,
  Option, none, some, ◌==◌, if◌then◌else◌, arith, Bool-cases,
}
use personalized_email_pipel.Campaign.Model.{Text}
use personalized_email_pipel.Campaign.Text.{codes}
use personalized_email_pipel.Command.Controller.{Controller}
use personalized_email_pipel.Command.Handler.Routes.Leases.{Leaves, serve_http-Leaves}
use personalized_email_pipel.Command.Handler.{Console, Visit, WebRequest, is_post}
use personalized_email_pipel.Command.Server.{
  Net, BoundAuthority, equal_literal_ip, authority_of, split_authority,
  listener_authority_from_string, is_loopback_at, is_loopback_address, loopback_listen_address,
  is_bound_at, is_bound_host, serve_authority,
}
use personalized_email_pipel.Command.Web.Origins.{ComesFromHere, allows_browser_post-ComesFromHere}
use personalized_email_pipel.Command.Web.{allows_browser_post}

both : (x y : Bool) → (x && y) ≡ true → (x ≡ true) × (y ≡ true)
both x y k = ground arith

not_zero : (port : ℕ) → not (port == 0) ≡ true → port ≢ 0
not_zero port h = ground (arith, h)

module _ (N : Net) where
  -- The text is a literal IP and a port: that IP, and that port.
  pub record Names (text : Text) (ip : N.Ip) (port : ℕ) : Type 0 where
    pub host : Text
    pub digits : Text
    pub split : N.split_host_port text ≡ some (host, digits)
    pub literal : N.parse_ip host ≡ some ip
    pub number : N.parse_port digits ≡ some port

  bound_at :
      (b : BoundAuthority N) (o : Option ℕ) (i : Option N.Ip)
      → is_bound_at N b o i ≡ true
      → (o ≡ some b.port) × (ip : N.Ip) × (i ≡ some ip) × (equal_literal_ip N ip b.ip ≡ true)
  unfolding is_bound_at
  bound_at b none i h = ground (arith, h)
  bound_at b (some port) none h = ground (arith, h)
  bound_at b (some port) (some ip) h =
      let (same, equal) = both (port == b.port) (equal_literal_ip N ip b.ip) h in
      (ap some ((==_iff port b.port).0 same), ip, refl, equal)

  -- The Host is a literal IP with the bound port, and the IP is the bound one.
  abbrev pub IsBoundHost : BoundAuthority N → Text → Type 0
  IsBoundHost b text = (ip : N.Ip) × Names text ip b.port × (equal_literal_ip N ip b.ip ≡ true)

  host-IsBoundHost :
      (b : BoundAuthority N) (text : Text) (o : Option (Text × Text))
      → N.split_host_port text ≡ o
      → is_bound_host N b o ≡ true
      → IsBoundHost b text
  unfolding is_bound_host
  host-IsBoundHost b text none e h = ground (arith, h)
  host-IsBoundHost b text (some (host, digits)) e h =
      let (number, ip, literal, same) = bound_at b (N.parse_port digits) (N.parse_ip host) h in
      (
        ip,
        record { host = host; digits = digits; split = e; literal = literal; number = number },
        same,
      )

  -- The server's address is a literal loopback IP with a port other than 0.
  abbrev pub IsLoopbackAt : BoundAuthority N → Text → Type 0
  IsLoopbackAt b address = Names address b.ip b.port × (b.port ≢ 0) × (N.is_loopback b.ip ≡ true)

  loopback_at :
      (b : BoundAuthority N) (o : Option ℕ) (i : Option N.Ip)
      → is_loopback_at N o i ≡ true
      → authority_of N o i ≡ some b
      → (o ≡ some b.port) × (i ≡ some b.ip) × (b.port ≢ 0) × (N.is_loopback b.ip ≡ true)
  unfolding is_loopback_at authority_of
  loopback_at b none i h e = ground (arith, h)
  loopback_at b (some port) none h e = ground (arith, h)
  loopback_at b (some port) (some ip) h e =
      let made : BoundAuthority N = record { ip = ip; port = port } in
      let q : made ≡ b = cc in
      let (nonzero, loopback) = both (not (port == 0)) (N.is_loopback ip) h in
      (
        ap (λ (x : BoundAuthority N). some x.port) q,
        ap (λ (x : BoundAuthority N). some x.ip) q,
        subst (λ (x : BoundAuthority N). x.port ≢ 0) q (not_zero port nonzero),
        subst (λ (x : BoundAuthority N). N.is_loopback x.ip ≡ true) q loopback,
      )

  address-IsLoopbackAt :
      (b : BoundAuthority N) (address : Text) (o : Option (Text × Text))
      → N.split_host_port address ≡ o
      → is_loopback_address N o ≡ true
      → split_authority N o ≡ some b
      → IsLoopbackAt b address
  unfolding is_loopback_address split_authority
  address-IsLoopbackAt b address none e h k = ground (arith, h)
  address-IsLoopbackAt b address (some (host, digits)) e h k =
      let (number, literal, nonzero, loopback) =
        loopback_at b (N.parse_port digits) (N.parse_ip host) h k in
      (
        record { host = host; digits = digits; split = e; literal = literal; number = number },
        nonzero,
        loopback,
      )

  loopback_listen_address-IsLoopbackAt :
      (address listen : Text) (b : BoundAuthority N)
      → loopback_listen_address N listen ≡ some address
      → listener_authority_from_string N address ≡ some b
      → IsLoopbackAt b address
  unfolding loopback_listen_address listener_authority_from_string
  loopback_listen_address-IsLoopbackAt address listen b h k =
      let (is_at, same) =
        accepted_address (is_loopback_address N (N.split_host_port listen)) listen address h in
      address-IsLoopbackAt b address (N.split_host_port address) refl (rw⁻¹ same is_at) k
    where
      accepted_address :
          (x : Bool) (listen address : Text)
          → (if x then some listen else none) ≡ some address
          → (x ≡ true) × (listen ≡ address)
      accepted_address true listen address e = (refl, cc)
      accepted_address false listen address e = ground (arith, e)

  -- A request that may start or cancel a run.
  pub record IsLocal (b : BoundAuthority N) (W : Console) (r : WebRequest) : Type 0 where
    pub bound_host : IsBoundHost b r.browser.host
    pub posted : is_post r.method ≡ true
    pub not_cross_site : W.urls.equal_fold r.browser.fetch_site (codes "cross-site") ≡ false
    pub same_page : ComesFromHere W.urls r.browser.host r.browser.origin r.browser.referer

  guarded :
      (b : BoundAuthority N) (W : Console) (c : Controller) (v : Visit)
      → Leaves c (serve_authority N b W c v) ⊎ IsLocal b W v.request
  unfolding serve_authority
  guarded b W c v =
      elim (Bool-cases (is_bound_host N b (N.split_host_port v.request.browser.host))) [
        | inr e ↦ inl (rw e (unfold Leaves in refl))
        | inl e ↦
            rw e
              (elim (Bool-cases
                (is_post v.request.method && allows_browser_post W.urls v.request.browser)) [
                  | inr k ↦ inl (serve_http-Leaves W c v k)
                  | inl k ↦ inr (
                      let (posted, allowed) =
                        both (is_post v.request.method)
                          (allows_browser_post W.urls v.request.browser) k in
                      let (not_cross, page) =
                        allows_browser_post-ComesFromHere W.urls v.request.browser allowed in
                      record {
                        bound_host =
                            host-IsBoundHost b v.request.browser.host
                              (N.split_host_port v.request.browser.host) refl e;
                        posted = posted;
                        not_cross_site = not_cross;
                        same_page = page;
                      })
                ])
      ]

  -- A server that the web command starts listens on a literal loopback IP with a port other than 0; and
  -- it answers a request and leaves the runs as they are, whatever a run would do, unless the request's
  -- Host is that IP with that port, it is a POST that does not call itself cross-site, and a browser that
  -- says where it comes from names one page, over http, of that same Host. net.Listen's address of a
  -- literal IP and a port reads as the same IP and port.
  pub serve_authority-IsLocal :
      (listen address bound_address : Text) (b : BoundAuthority N) (W : Console) (c : Controller)
      (v : Visit)
      → loopback_listen_address N listen ≡ some address
      → listener_authority_from_string N bound_address ≡ listener_authority_from_string N address
      → listener_authority_from_string N bound_address ≡ some b
      → IsLoopbackAt b address × (Leaves c (serve_authority N b W c v) ⊎ IsLocal b W v.request)
  serve_authority-IsLocal listen address bound_address b W c v h same e =
      (loopback_listen_address-IsLoopbackAt address listen b h (sym same ∙ e), guarded b W c v)
