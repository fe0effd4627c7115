-- ===== src/Proxy/Egress.antt =====
-- Where the egress proxy of src/vpsmcp/proxy.py opens a connection, and for whom.
use letkite_lite.Prelude.{
  ℕ, Bool, true, false, not, ◌||◌, ◌&&◌, String, ◌==◌, ◌≡◌, refl, sym, Option, none, some, List, [],
  ◌∷◌, All, All-map, ◌⊎◌, ltb, eqb, if◌then◌else◌, Bool-cases, Option-cases, inl, inr, arith,
}
use letkite_lite.Settings.{Settings}
use letkite_lite.Ssh.Session.{rpartition}
use letkite_lite.Proxy.Head.{parse_head, parse_line, upper_eq, strip_brackets}
use letkite_lite.Proxy.{
  Network, Address, Event, looked_up, dial, log, Answer, refused, upstream_error, Denied, Resolved,
  denied, at_address, first_of, resolve_public, is_public, all_public, authorized, connect_to,
  connect_at, connect, Url, UrlPort, no_port, bad_port, at_port, Integer, no_integer, below_zero,
  natural, forward_to, forward_port, forward_url, forward, content_length, serve_authorized,
  serve_line, handle, sent_log, body_of, host_and_port,
}

-- The address is the first that the first lookup of the name and the port answered, and each one of them is public.
pub record IsPinned (n : Network) (host : String) (fam : ℕ) (ip : String) (port : ℕ) : Type 0 where
  pub others : List (ℕ × String)
  pub answers : n.getaddrinfo 0 host port ≡ some ((fam, ip) ∷ others)
  pub public : All (λ info. is_public (n.ip_address info.1) ≡ true) ((fam, ip) ∷ others)

-- The port of an absolute URL, 80 if it has none.
abbrev url_port : UrlPort → ℕ
url_port no_port = 80
url_port bad_port = 80
url_port (at_port q) = if eqb q 0 then 80 else q

-- The host and the port that a request line asks for: CONNECT host:port, or those of an absolute URL.
abbrev pub IsTarget : Network → String → String → String → ℕ → Type 0
IsTarget n method target host port =
    ((upper_eq method "CONNECT" ≡ true)
      × (host ≡ strip_brackets (host_and_port target (rpartition ":" target)).0)
      × (n.int (host_and_port target (rpartition ":" target)).1 ≡ natural port))
    ⊎ ((upper_eq method "CONNECT" ≡ false)
        × ((u : Url) × (n.urlsplit target ≡ some u)
            × (host ≡ u.hostname)
            × (port ≡ url_port u.port)))

-- What the text of a request asks for.
abbrev pub AsksFor : Network → String → String → ℕ → Type 0
AsksFor n text host port =
    (method : String) × (target : String) × (parse_line (parse_head text).line
      ≡ some (method, target))
    × IsTarget n method target host port

-- What an event needs, where `P` holds of the request, and `Asks` of the host and the port that it asks for.
abbrev pub IsSafe : Network → Type 0 → (String → ℕ → Type 0) → Event → Type 0
IsSafe n P Asks (looked_up host port) = P × Asks host port
IsSafe n P Asks (dial fam ip port) =
    P × ((host : String) × Asks host port × IsPinned n host fam ip port)
IsSafe n P Asks (log event target detail) = Unit

all_public-All :
    (ip_address : String → Address) (infos : List (ℕ × String))
    → all_public ip_address infos ≡ true
    → All (λ info. is_public (ip_address info.1) ≡ true) infos
all_public-All ip_address [] h = tt
all_public-All ip_address ((fam, ip) ∷ infos) h = elim (Bool-cases (is_public (ip_address ip))) [
  | inl good ↦ (good, all_public-All ip_address infos (rw good at h))
  | inr bad ↦ let no : false ≡ true = (rw bad at h) in ground (arith, no)
]

denied≢at_address :
    {d : Denied} {fam : ℕ} {ip : String} {C : Type 0} → denied d ≡ at_address fam ip → C
denied≢at_address h = ground (arith, h)

module _ (n : Network) where
  first_of-IsPinned :
      (host : String) (port : ℕ) (infos : List (ℕ × String)) (fam : ℕ) (ip : String)
      → n.getaddrinfo 0 host port ≡ some infos
      → first_of n infos ≡ at_address fam ip
      → IsPinned n host fam ip port
  first_of-IsPinned host port [] fam ip e h = ground (arith, h)
  first_of-IsPinned host port ((f, a) ∷ infos) fam ip e h =
      elim (Bool-cases (all_public n.ip_address ((f, a) ∷ infos))) [
        | inl good ↦
            let here : at_address f a ≡ at_address fam ip = (rw good at h) in
            let same_family : f ≡ fam = cc in
            let same : a ≡ ip = cc in
            let own : IsPinned n host f a port = record {
              others = infos;
              answers = e;
              public = all_public-All n.ip_address ((f, a) ∷ infos) good;
            } in
            rw (sym same_family, sym same) own
        | inr bad ↦ denied≢at_address (rw bad at h)
      ]

  resolve_public-IsPinned :
      (host : String) (port fam : ℕ) (ip : String)
      → resolve_public n 0 host port ≡ at_address fam ip
      → IsPinned n host fam ip port
  unfolding resolve_public
  resolve_public-IsPinned host port fam ip h = elim (Option-cases (n.getaddrinfo 0 host port)) [
    | inl missing ↦ denied≢at_address (rw missing at h)
    | inr (infos, e) ↦ first_of-IsPinned host port infos fam ip e (rw e at h)
  ]

  module _ (P : Type 0) (Asks : String → ℕ → Type 0) (p : P) where
    connect_to-IsSafe :
        (host : String) (port : ℕ) (r : Resolved)
        → Asks host port
        → ((fam : ℕ) (ip : String) → r ≡ at_address fam ip → IsPinned n host fam ip port)
        → All (IsSafe n P Asks) (connect_to n host port r).0
    connect_to-IsSafe host port (denied d) asks safe = tt
    connect_to-IsSafe host port (at_address fam ip) asks safe =
        elim (Bool-cases (n.open_connection fam ip port)) [
          | inl opened ↦ rw opened ((p, (host, asks, safe fam ip refl)), (tt, tt))
          | inr shut ↦ rw shut ((p, (host, asks, safe fam ip refl)), tt)
        ]

    connect_at-IsSafe :
        (host : String) (port : Integer)
        → ((q : ℕ) → port ≡ natural q → Asks host q)
        → All (IsSafe n P Asks) (connect_at n host port).0
    connect_at-IsSafe host no_integer asks = tt
    connect_at-IsSafe host below_zero asks = tt
    connect_at-IsSafe host (natural port) asks = elim (Bool-cases (ltb 0 port && ltb port 65536)) [
      | inl fits ↦ rw fits (
        (p, asks port refl),
        connect_to-IsSafe host port (resolve_public n 0 host port) (asks port refl)
            (resolve_public-IsPinned host port),
      )
      | inr out ↦ rw out tt
    ]

    sent_log-IsSafe :
        (method host : String) (port : ℕ) (body : Option (List ℕ))
        → All (IsSafe n P Asks) (sent_log method host port body)
    sent_log-IsSafe method host port none = tt
    sent_log-IsSafe method host port (some body) = (tt, tt)

    dialled-IsSafe :
        (fam : ℕ) (ip : String) (port : ℕ) (host method : String) (body : Option (List ℕ))
        (sent : Answer)
        → Asks host port
        → IsPinned n host fam ip port
        → All
            (IsSafe n P Asks)
            (if◌then◌else◌ {A = List Event × Answer}
              (n.open_connection fam ip port)
              (dial fam ip port ∷ sent_log method host port body, sent)
              (dial fam ip port ∷ [], refused upstream_error)).0
    dialled-IsSafe fam ip port host method body sent asks pinned =
        elim (Bool-cases (n.open_connection fam ip port)) [
          | inl opened ↦
              rw opened ((p, (host, asks, pinned)), sent_log-IsSafe method host port body)
          | inr shut ↦ rw shut ((p, (host, asks, pinned)), tt)
        ]

    forward_to-IsSafe :
        (method target : String) (u : Url) (port : ℕ) (headers : List (String × String))
        (len : Integer) (r : Resolved)
        → Asks u.hostname port
        → ((fam : ℕ) (ip : String) → r ≡ at_address fam ip → IsPinned n u.hostname fam ip port)
        → All (IsSafe n P Asks) (forward_to n method target u port headers len r).0
    forward_to-IsSafe method target u port headers len (denied d) asks safe = tt
    forward_to-IsSafe method target u port headers no_integer (at_address fam ip) asks safe = tt
    forward_to-IsSafe method target u port headers below_zero (at_address fam ip) asks safe =
        dialled-IsSafe fam ip port u.hostname method (body_of n below_zero) _ asks
          (safe fam ip refl)
    forward_to-IsSafe method target u port headers (natural len) (at_address fam ip) asks safe =
        dialled-IsSafe fam ip port u.hostname method (body_of n (natural len)) _ asks
          (safe fam ip refl)

    forward_port-IsSafe :
        (method target : String) (u : Url) (headers : List (String × String)) (port : UrlPort)
        → Asks u.hostname (url_port port)
        → All (IsSafe n P Asks) (forward_port n method target u headers port).0
    forward_port-IsSafe method target u headers bad_port asks = tt
    forward_port-IsSafe method target u headers no_port asks = (
      (p, asks),
      forward_to-IsSafe method target u 80 headers (content_length n headers)
          (resolve_public n 0 u.hostname 80) asks (resolve_public-IsPinned u.hostname 80),
    )
    forward_port-IsSafe method target u headers (at_port q) asks =
        let p80 = if eqb q 0 then 80 else q in
        (
          (p, asks),
          forward_to-IsSafe method target u p80 headers (content_length n headers)
              (resolve_public n 0 u.hostname p80) asks (resolve_public-IsPinned u.hostname p80),
        )

    forward_url-IsSafe :
        (method target : String) (headers : List (String × String)) (o : Option Url)
        → ((u : Url) → o ≡ some u → Asks u.hostname (url_port u.port))
        → All (IsSafe n P Asks) (forward_url n method target headers o).0
    forward_url-IsSafe method target headers none asks = tt
    forward_url-IsSafe method target headers (some u) asks =
        elim (Bool-cases (not (u.scheme == "http") || u.hostname == "")) [
          | inl other ↦ rw other tt
          | inr http ↦ rw http (forward_port-IsSafe method target u headers u.port (asks u refl))
        ]

  -- What is done for an authorized request line is for its own target.
  module _ (P : Type 0) (p : P) (method target : String) where
    connect-IsSafe :
        upper_eq method "CONNECT" ≡ true
        → All (IsSafe n P (IsTarget n method target)) (connect n target).0
    unfolding connect
    connect-IsSafe tunnel =
        let (host, port) = host_and_port target (rpartition ":" target) in
        connect_at-IsSafe P (IsTarget n method target) p (strip_brackets host) (n.int port)
          (λ q same. inl (tunnel, refl, same))

    forward-IsSafe :
        (headers : List (String × String))
        → upper_eq method "CONNECT" ≡ false
        → All (IsSafe n P (IsTarget n method target)) (forward n method target headers).0
    unfolding forward
    forward-IsSafe headers plain =
        forward_url-IsSafe P (IsTarget n method target) p method target headers (n.urlsplit target)
          (λ u same. inr (plain, (u, same, refl, refl)))

serve_authorized-IsSafe :
    (n : Network) (method target : String) (headers : List (String × String)) (o : Option Bool)
    → All
        (IsSafe n (o ≡ some true) (IsTarget n method target))
        (serve_authorized n method target headers o).0
serve_authorized-IsSafe n method target headers none = tt
serve_authorized-IsSafe n method target headers (some false) = (tt, tt)
serve_authorized-IsSafe n method target headers (some true) =
    elim (Bool-cases (upper_eq method "CONNECT")) [
      | inl tunnel ↦ rw tunnel (connect-IsSafe n _ refl method target tunnel)
      | inr plain ↦ rw plain (forward-IsSafe n _ refl method target headers plain)
    ]

IsSafe-asks :
    (n : Network) (P : Type 0) (Asks Wants : String → ℕ → Type 0)
    → ((host : String) (port : ℕ) → Asks host port → Wants host port)
    → (e : Event) → IsSafe n P Asks e
    → IsSafe n P Wants e
IsSafe-asks n P Asks Wants f (looked_up host port) (p, asks) = (p, f host port asks)
IsSafe-asks n P Asks Wants f (dial fam ip port) (p, (host, asks, pinned)) =
    (p, (host, f host port asks, pinned))
IsSafe-asks n P Asks Wants f (log event target detail) safe = tt

serve_line-IsSafe :
    (n : Network) (c : Settings) (text : String) (o : Option (String × String))
    → parse_line (parse_head text).line ≡ o
    → All
        (IsSafe n (authorized n c (parse_head text).headers ≡ some true) (AsksFor n text))
        (serve_line n c (parse_head text).headers o).0
serve_line-IsSafe n c text none e = tt
serve_line-IsSafe n c text (some (method, target)) e =
    let P = authorized n c (parse_head text).headers ≡ some true in
    All-map (IsSafe n P (IsTarget n method target)) (IsSafe n P (AsksFor n text)) _
      (IsSafe-asks n P (IsTarget n method target) (AsksFor n text)
        (λ host port asks. (method, target, e, asks)))
      (serve_authorized-IsSafe n method target (parse_head text).headers
        (authorized n c (parse_head text).headers))

-- Whatever is sent to the proxy, it looks a name up and asks for a connection only if the request's credentials are
-- right; the name and the port are those of the request's own target, and the address is the first that the first lookup
-- of them answered, where each answer is a public address, though a later lookup may answer otherwise.
pub handle-egress :
    (n : Network) (c : Settings) (size : ℕ) (text : String)
    → All
        (IsSafe n (authorized n c (parse_head text).headers ≡ some true) (AsksFor n text))
        (handle n c (some (size, text))).0
unfolding handle
handle-egress n c size text = elim (Bool-cases (ltb 65536 size)) [
  | inl large ↦ rw large tt
  | inr small ↦ rw small (serve_line-IsSafe n c text (parse_line (parse_head text).line) refl)
]
