-- ===== src/Security/ClientIp.antt =====
-- internal/security/clientip.go. Go's package `net` is a parameter: its addresses, how they are parsed,
-- compared and printed, and how a host is split from its port.
use windows_llmmanager.Base.{
  ◌≡◌, String, string_eq, Bool, false, Option, none, some, if◌then◌else◌, arith,
}
use windows_llmmanager.Api.{Bytes}
use windows_llmmanager.Text.{trim_space}

pub record Net : Type 1 where
  pub Ip : Type 0
  pub parse_ip : Bytes → Option Ip
  pub equal : Ip → Ip → Bool
  pub print : Ip → String
  pub split_host_port : Bytes → Option Bytes

-- What the resolver reads of a request.
pub record Peer : Type 0 where
  pub remote_addr : Bytes
  pub cf_connecting_ip : Bytes

module _ (net : Net) (to_string : Bytes → String) where
  open net use {Ip, parse_ip, equal, print, split_host_port}

  pub record Resolver : Type 0 where
    pub trusted_proxy : Option Ip

  unfoldable pub new_resolver : Bytes → Resolver
  new_resolver trusted_proxy = record { trusted_proxy = parse_ip trusted_proxy }

  abbrev pub host_of : Bytes → Bytes
  host_of remote = elim (split_host_port remote) [ none ↦ remote | some host ↦ host ]

  abbrev pub same_ip : Option Ip → Option Ip → Bool
  same_ip (some a) (some b) = equal a b
  same_ip _ _ = false

  -- The address of the peer itself.
  unfoldable pub direct : Bytes → String
  direct host = elim (parse_ip (trim_space host)) [ none ↦ to_string host | some ip ↦ print ip ]

  unfoldable pub resolve : Resolver → Peer → String
  unfolding direct
  resolve r req =
      let host = host_of req.remote_addr in
      let own = direct host in
      if same_ip (parse_ip (trim_space host)) r.trusted_proxy
      then elim (parse_ip (trim_space req.cf_connecting_ip)) [
        | none ↦ own
        | some forwarded ↦ print forwarded
      ]
      else own

  -- The header counts only if the trusted proxy sent the request: from any other peer, two requests
  -- that differ in the header have one address, so a client cannot choose under which it is counted.
  pub resolve_untrusted :
      (r : Resolver) (req : Peer) (header : Bytes)
      → same_ip (parse_ip (trim_space (host_of req.remote_addr))) r.trusted_proxy ≡ false
      → resolve r (record req { cf_connecting_ip = header }) ≡ direct (host_of req.remote_addr)
  unfolding resolve
  resolve_untrusted r req header e = rw e

  -- Without a trusted proxy, or with one that is no address, the header never counts.
  pub resolve_no_proxy :
      (proxy : Bytes) (req : Peer)
      → parse_ip proxy ≡ none
      → resolve (new_resolver proxy) req ≡ direct (host_of req.remote_addr)
  unfolding resolve new_resolver
  resolve_no_proxy proxy req e = ground arith
