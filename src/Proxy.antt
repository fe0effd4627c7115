-- ===== src/Proxy.antt =====
-- `ForwardProxy` of src/vpsmcp/proxy.py: the egress proxy of the nodes, from the head of a request to the
-- connection that is opened. A text is the Latin-1 reading of the bytes.
pub mod Head
pub mod Egress
use Prim.Native.String
use Prim.Native.String.{[], ◌∷◌}
use Prim.Native.Char.{Char, code}
use mathlib.Core.List
use text.Mathlib.Text.{starts_with}
use letkite_lite.Prelude.{
  ℕ, zero, suc, Bool, true, false, not, ◌&&◌, ◌||◌, String, ◌==◌, Option, none, some, List, ltb,
  eqb, if◌then◌else◌, mem, ◌++◌,
}
use letkite_lite.Prelude.Text.{lower, slice_from, partition, compare_digest}
use letkite_lite.Dict.{lookup}
use letkite_lite.Settings.{Settings}
use letkite_lite.Inventory.Host.{decimal}
use letkite_lite.Ssh.Session.{rpartition}
use letkite_lite.Proxy.Head.{parse_head, parse_line, strip_brackets, title, join_crlf, upper_eq}

-- What `ipaddress` says of an address.
pub record Kind : Type 0 where
  pub is_private : Bool
  pub is_loopback : Bool
  pub is_link_local : Bool
  pub is_reserved : Bool
  pub is_multicast : Bool
  pub is_unspecified : Bool

pub record Address : Type 0 where
  pub is_v6 : Bool
  pub kind : Kind
  pub ipv4_mapped : Option Kind

-- int(s)
pub data Integer : Type 0 where
  no_integer : Integer
  below_zero : Integer
  natural : ℕ → Integer

-- u.port
pub data UrlPort : Type 0 where
  no_port : UrlPort
  bad_port : UrlPort
  at_port : ℕ → UrlPort

pub record Url : Type 0 where
  pub scheme : String
  -- empty if there is none
  pub hostname : String
  pub port : UrlPort
  pub path : String
  pub query : String

-- The libraries that the proxy calls; none where they raise.
pub record Network : Type 0 where
  pub ip_address : String → Address
  -- families and addresses: what the lookup of a name and a port answers, which may be another answer each time. The
  -- number counts the lookups of a request, from 0 on.
  pub getaddrinfo : ℕ → String → ℕ → Option (List (ℕ × String))
  pub urlsplit : String → Option Url
  pub int : String → Integer
  pub b64decode : String → Option String
  pub verify_password : String → String → Bool
  -- asyncio.open_connection, if it succeeds in time
  pub open_connection : ℕ → String → ℕ → Bool
  -- reader.readexactly
  pub readexactly : ℕ → Option (List ℕ)

pub record Denied : Type 0 where
  pub status : ℕ
  pub reason : String

pub data Answer : Type 0 where
  refused : Denied → Answer
  -- an exception that `handle` does not catch
  raised : Answer
  tunnelled : Answer
  -- the head and the body that are sent on
  forwarded : String → List ℕ → Answer

pub data Event : Type 0 where
  -- a name is looked up
  looked_up : String → ℕ → Event
  -- a connection is asked for: the family, the address and the port
  dial : ℕ → String → ℕ → Event
  log : String → String → String → Event

abbrev is_public_kind : Kind → Bool
is_public_kind k = not (
    k.is_private || k.is_loopback || k.is_link_local || k.is_reserved || k.is_multicast
    || k.is_unspecified)

abbrev kind_or : Kind → Option Kind → Kind
kind_or k none = k
kind_or k (some mapped) = mapped

-- `_addr_is_public`
unfoldable pub is_public : Address → Bool
is_public a = is_public_kind (if a.is_v6 then kind_or a.kind a.ipv4_mapped else a.kind)

abbrev pub all_public : (String → Address) → List (ℕ × String) → Bool
all_public ip_address List.[] = true
all_public ip_address (List.◌∷◌ (fam, ip) infos) =
    let rest = all_public ip_address infos in if is_public (ip_address ip) then rest else false

pub data Resolved : Type 0 where
  denied : Denied → Resolved
  at_address : ℕ → String → Resolved

abbrev pub first_of : Network → List (ℕ × String) → Resolved
first_of n List.[] = denied record { status = 502; reason = "cannot resolve host" }
first_of n (List.◌∷◌ (fam, ip) infos) =
    if all_public n.ip_address (List.◌∷◌ (fam, ip) infos)
    then at_address fam ip
    else denied record { status = 403; reason = "destination is not a public address" }

abbrev pub resolved : Network → Option (List (ℕ × String)) → Resolved
resolved n none = denied record { status = 502; reason = "cannot resolve host" }
resolved n (some infos) = first_of n infos

-- `asked` is the number of lookups before.
unfoldable pub resolve_public : Network → ℕ → String → ℕ → Resolved
unfolding is_public
resolve_public n asked host port = resolved n (n.getaddrinfo asked host port)

abbrev pub or_empty : Option String → String
or_empty none = ""
or_empty (some s) = s

abbrev password_ok : Network → Settings → String × String → Option Bool → Option Bool
password_ok n c (user, pwd) none = none
password_ok n c (user, pwd) (some false) = some false
password_ok n c (user, pwd) (some true) = some (n.verify_password pwd c.proxy_pass_hash)

abbrev credentials_ok : Network → Settings → Option String → Option Bool
credentials_ok n c none = some false
credentials_ok n c (some text) =
    let (user, pwd) = partition b':' text in
    password_ok n c (user, pwd) (compare_digest user c.proxy_user)

-- none is the TypeError of `compare_digest`. `b64decode` also decodes the bytes to a text.
unfoldable pub authorized : Network → Settings → List (String × String) → Option Bool
unfolding lookup
authorized n c headers =
    let raw = or_empty (lookup "proxy-authorization" headers) in
    if starts_with (lower raw) "basic "
    then credentials_ok n c (n.b64decode (slice_from 6 raw))
    else some false

abbrev pub upstream_error : Denied
upstream_error = record { status = 502; reason = "upstream error" }

abbrev connect_to : Network → String → ℕ → Resolved → List Event × Answer
connect_to n host port (denied d) = (List.[], refused d)
connect_to n host port (at_address fam ip) =
    if n.open_connection fam ip port
    then (
      List.◌∷◌ (dial fam ip port) (
          List.◌∷◌ (log "connect" (String.◌++◌ host (String.◌++◌ ":" (decimal port))) "ok")
            List.[]),
      tunnelled,
    )
    else (List.◌∷◌ (dial fam ip port) List.[], refused upstream_error)

abbrev after_lookup : String → ℕ → List Event × Answer → List Event × Answer
after_lookup host port (events, answer) = (List.◌∷◌ (looked_up host port) events, answer)

abbrev connect_at : Network → String → Integer → List Event × Answer
connect_at n host no_integer =
    (List.[], refused record { status = 400; reason = "bad CONNECT target" })
connect_at n host below_zero = (List.[], refused record { status = 400; reason = "bad port" })
connect_at n host (natural port) =
    if ltb 0 port && ltb port 65536
    then after_lookup host port (connect_to n host port (resolve_public n 0 host port))
    else (List.[], refused record { status = 400; reason = "bad port" })

abbrev host_and_port : String → Option (String × String) → String × String
host_and_port target none = ("", target)
host_and_port target (some p) = p

-- `_connect`
unfoldable pub connect : Network → String → List Event × Answer
unfolding resolve_public rpartition
connect n target =
    let (host, port) = host_and_port target (rpartition ":" target) in
    connect_at n (strip_brackets host) (n.int port)

abbrev pub hop_by_hop : List String
hop_by_hop = List.◌∷◌ "proxy-authorization" (
    List.◌∷◌ "proxy-connection" (
      List.◌∷◌ "connection" (
        List.◌∷◌ "keep-alive" (
          List.◌∷◌ "te"
            (List.◌∷◌ "trailer" (List.◌∷◌ "transfer-encoding" (List.◌∷◌ "upgrade" List.[])))))))

abbrev sent_headers : List (String × String) → List String
sent_headers List.[] = List.◌∷◌ "Connection: close" List.[]
sent_headers (List.◌∷◌ (k, v) headers) =
    let rest = sent_headers headers in
    if mem k hop_by_hop || k == "host"
    then rest
    else List.◌∷◌ (String.◌++◌ (title k) (String.◌++◌ ": " v)) rest

abbrev port_text : UrlPort → String
port_text no_port = ""
port_text bad_port = ""
port_text (at_port n) = if eqb n 0 then "" else String.◌++◌ ":" (decimal n)

abbrev or_slash : String → String
or_slash path = if path == "" then "/" else path

-- The request line and the headers that are sent on.
unfoldable pub forward_head : String → Url → List (String × String) → String
forward_head method u headers =
    let path =
      if u.query == ""
      then or_slash u.path
      else String.◌++◌ (or_slash u.path) (String.◌++◌ "?" u.query) in
    String.◌++◌
      (join_crlf (
        List.◌∷◌ (String.◌++◌ method (String.◌++◌ " " (String.◌++◌ path " HTTP/1.1"))) (
          List.◌∷◌ (String.◌++◌ "Host: " (String.◌++◌ u.hostname (port_text u.port)))
            (sent_headers headers))))
      "\r\n\r\n"

abbrev sent_on : String → Option (List ℕ) → Answer
sent_on head none = raised
sent_on head (some body) = forwarded head body

abbrev body_of : Network → Integer → Option (List ℕ)
body_of n no_integer = none
body_of n below_zero = some List.[]
body_of n (natural zero) = some List.[]
body_of n (natural (suc len)) = n.readexactly (suc len)

-- The log entry of a request that was sent.
abbrev sent_log : String → String → ℕ → Option (List ℕ) → List Event
sent_log method host port none = List.[]
sent_log method host port (some body) =
    List.◌∷◌ (log "http" (String.◌++◌ host (String.◌++◌ ":" (decimal port))) method) List.[]

abbrev content_length : Network → List (String × String) → Integer
content_length n headers =
    let text = or_empty (lookup "content-length" headers) in
    n.int (if text == "" then "0" else text)

abbrev forward_to :
    Network
    → String
    → String
    → Url
    → ℕ
    → List (String × String)
    → Integer
    → Resolved
    → List Event × Answer
forward_to n method target u port headers len (denied d) = (List.[], refused d)
forward_to n method target u port headers no_integer (at_address fam ip) = (List.[], raised)
forward_to n method target u port headers len (at_address fam ip) =
    if n.open_connection fam ip port
    then (
      List.◌∷◌ (dial fam ip port) (sent_log method u.hostname port (body_of n len)),
      sent_on (forward_head method u headers) (body_of n len),
    )
    else (List.◌∷◌ (dial fam ip port) List.[], refused upstream_error)

abbrev forward_port :
    Network → String → String → Url → List (String × String) → UrlPort → List Event × Answer
forward_port n method target u headers bad_port = (List.[], raised)
forward_port n method target u headers no_port = after_lookup u.hostname 80 (
    forward_to n method target u 80 headers (content_length n headers)
      (resolve_public n 0 u.hostname 80))
forward_port n method target u headers (at_port p) =
    let p80 = if eqb p 0 then 80 else p in
    after_lookup u.hostname p80 (
      forward_to n method target u p80 headers (content_length n headers)
        (resolve_public n 0 u.hostname p80))

abbrev forward_url :
    Network → String → String → List (String × String) → Option Url → List Event × Answer
forward_url n method target headers none = (List.[], raised)
forward_url n method target headers (some u) =
    if not (u.scheme == "http") || u.hostname == ""
    then (
      List.[],
      refused record { status = 400; reason = "only http absolute-form or CONNECT is supported" },
    )
    else forward_port n method target u headers u.port

-- `_forward`, up to the answer that is streamed back.
unfoldable pub forward : Network → String → String → List (String × String) → List Event × Answer
unfolding lookup resolve_public forward_head
forward n method target headers = forward_url n method target headers (n.urlsplit target)

abbrev serve_authorized :
    Network → String → String → List (String × String) → Option Bool → List Event × Answer
serve_authorized n method target headers none = (List.[], raised)
serve_authorized n method target headers (some false) = (
  List.◌∷◌ (log "deny" target "auth") List.[],
  refused record { status = 407; reason = "proxy authentication required" },
)
serve_authorized n method target headers (some true) =
    if upper_eq method "CONNECT" then connect n target else forward n method target headers

abbrev serve_line :
    Network → Settings → List (String × String) → Option (String × String) → List Event × Answer
serve_line n c headers none =
    (List.[], refused record { status = 400; reason = "malformed request line" })
serve_line n c headers (some (method, target)) =
    serve_authorized n method target headers (authorized n c headers)

abbrev serve_head : Network → Settings → ℕ → String → List Event × Answer
serve_head n c size text =
    let head = parse_head text in
    if ltb 65536 size
    then (List.[], refused record { status = 431; reason = "header too large" })
    else serve_line n c head.headers (parse_line head.line)

-- `handle`: the number of bytes and the text of the head, or none if it cannot be read in time.
unfoldable pub handle : Network → Settings → Option (ℕ × String) → List Event × Answer
unfolding authorized connect forward parse_head parse_line
handle n c none = (List.[], refused record { status = 400; reason = "malformed request" })
handle n c (some (size, text)) = serve_head n c size text
