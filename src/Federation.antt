-- ===== src/Federation.antt =====
-- pkg/daemon/federation.go, the outbound half: addresses "user@host", and the requests to the server
-- of a host. The HTTP client, the URL parser and the JSON decoder are the parameter `Http`.
pub mod Addresses
use dmail.Prelude.{
  ◌>>=◌, ◌>>◌, ℕ, suc, ◌+◌, ◌-◌, ◌/◌, Bool, ◌&&◌, ◌||◌, not, Option, none, some, [], ◌∷◌, ◌++◌, leb,
  ◌==◌, if◌then◌else◌, length, take, drop, Result, ok, fail_if, wrap, or_err,
}
use dmail.Prelude.Bytes.{Bytes, codes, eqb, has_prefix, has_suffix, contains}

-- `strings.LastIndex(s, "@")`; `none` is -1.
unfoldable pub last_index : ℕ → Bytes → Option ℕ
last_index b [] = none
last_index b (c ∷ s) = elim (last_index b s) [
  | some i ↦ some (suc i)
  | none ↦ if c == b then some 0 else none
]

-- The last test of `parseFederatedAddress`.
unfoldable pub check_host : Bytes → Bytes → Bytes × Bytes
check_host username host =
    if not (contains host (codes ".")) && not (has_prefix host (codes "localhost"))
    then ([], [])
    else (username, host)

unfoldable pub split_at : Bytes → Option ℕ → Bytes × Bytes
split_at addr none = ([], [])
split_at addr (some at) =
    if leb at 0 || leb (length addr - 1) at
    then ([], [])
    else check_host (take at addr) (drop (at + 1) addr)

-- The user name and the host; two empty texts for any other kind of address.
unfoldable pub parse_federated_address : Bytes → Bytes × Bytes
parse_federated_address addr =
    if has_prefix addr (codes "dmail:")
    then ([], [])
    else if has_suffix addr (codes ".dmail")
    then ([], [])
    else split_at addr (last_index b'@' addr)

pub record Response : Type 0 where
  pub status_code : ℕ
  pub body : Bytes

pub record Http : Type 0 where
  -- http.NewRequestWithContext takes this URL
  pub is_url : Bytes → Bool
  -- federationHTTPClient.Do: method, URL, body
  pub send : Bytes → Bytes → Bytes → Option Response
  -- url.QueryEscape
  pub query_escape : Bytes → Bytes
  -- the field `server_url` of a wellKnownResponse, `pubkey` of a resolveResponse
  pub decode_well_known : Bytes → Option Bytes
  pub decode_resolve : Bytes → Option Bytes

pub data Error : Type 0 where
  bad_url no_response bad_json empty_field : Error
  bad_status : ℕ → Error
  in_discovery : Error → Error

-- `strings.TrimRight(s, "/")`
unfoldable pub trim_slashes : Bytes → Bytes
trim_slashes [] = []
trim_slashes (c ∷ s) = elim (trim_slashes s) [
  | [] ↦ if c == b'/' then [] else c ∷ []
  | d ∷ t ↦ c ∷ d ∷ t
]

module _ (h : Http) where
  -- One request that must be answered with 200.
  unfoldable pub fetch : Bytes → Bytes → Bytes → Result Error Bytes
  fetch method url content = do
    fail_if (not (h.is_url url)) bad_url
    resp ← or_err no_response (h.send method url content)
    fail_if (not (resp.status_code == 200)) (bad_status resp.status_code)
    ok resp.body

  unfoldable pub well_known_url : Bytes → Bytes
  unfolding has_prefix
  well_known_url host =
      let scheme =
        if has_prefix host (codes "localhost") || has_prefix host (codes "127.0.0.1")
        then codes "http"
        else codes "https" in
      scheme ++ (codes "://" ++ (host ++ codes "/.well-known/dmail"))

  unfoldable pub discover_server_url : Bytes → Result Error Bytes
  unfolding fetch well_known_url trim_slashes eqb
  discover_server_url host = do
    content ← fetch (codes "GET") (well_known_url host) []
    server_url ← or_err bad_json (h.decode_well_known content)
    fail_if (eqb server_url []) empty_field
    ok (trim_slashes server_url)

  unfoldable pub resolve_via_federation : Bytes → Bytes → Result Error Bytes
  unfolding discover_server_url
  resolve_via_federation username host = do
    server_url ← wrap in_discovery (discover_server_url host)
    content ←
        fetch (codes "GET")
          (server_url ++ (codes "/api/v1/federation/resolve?username=" ++ h.query_escape username))
          []
    pubkey ← or_err bad_json (h.decode_resolve content)
    fail_if (eqb pubkey []) empty_field
    ok pubkey

  unfoldable pub deliver_via_federation : Bytes → Bytes → Result Error (Unit {0})
  unfolding discover_server_url
  deliver_via_federation server_host pkt_data = do
    server_url ← wrap in_discovery (discover_server_url server_host)
    fetch (codes "POST") (server_url ++ codes "/api/v1/federation/deliver") pkt_data
    ok tt
