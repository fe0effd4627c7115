-- ===== src/Tests/Proxying.antt =====
-- The egress proxy on a small request.
use letkite_lite.Prelude.{
  true, false, String, ◌==◌, ◌≡◌, some, none, List, [], ◌∷◌, All, refl, if◌then◌else◌, eqb,
}
use letkite_lite.Settings.{Settings}
use letkite_lite.Proxy.Head.{parse_head}
use letkite_lite.Proxy.{Network, Kind, Integer, natural, no_integer, authorized, handle, tunnelled}
use letkite_lite.Proxy.Egress.{IsSafe, AsksFor, handle-egress}
use letkite_lite.Tests.Setting.{demo}

abbrev global : Kind
global = record {
  is_private = false;
  is_loopback = false;
  is_link_local = false;
  is_reserved = false;
  is_multicast = false;
  is_unspecified = false;
}

abbrev to_port : String → Integer
to_port s = if s == "443" then natural 443 else no_integer

abbrev network : Network
network = record {
  ip_address = λ ip. record { is_v6 = false; kind = global; ipv4_mapped = none };
  getaddrinfo =
      λ asked host port. some ((2, if eqb asked 0 then "198.51.100.7" else "10.0.0.1") ∷ []);
  urlsplit = λ u. none;
  int = to_port;
  b64decode = λ s. some "node:pw";
  verify_password = λ p h. p == "pw";
  open_connection = λ fam ip port. true;
  readexactly = λ n. none;
}

abbrev with_proxy : Settings
with_proxy = record demo { proxy_user = "node"; proxy_pass_hash = "h" }

abbrev asking : String
asking = "CONNECT example.net:443 HTTP/1.1\r\nProxy-Authorization: Basic bm9kZTpwdw==\r\n\r\n"

handle-egress_example :
    All
      (IsSafe network
        (authorized network with_proxy (parse_head asking).headers ≡ some true)
        (AsksFor network asking))
      (handle network with_proxy (some (80, asking))).0
handle-egress_example = handle-egress network with_proxy 80 asking

asking-served : (handle network with_proxy (some (80, asking))).1 ≡ tunnelled
unfolding handle letkite_lite.Prelude.Text.lower letkite_lite.Prelude.Text.strip
    letkite_lite.Prelude.Text.partition letkite_lite.Prelude.Text.compare_digest
    letkite_lite.Proxy.Head.upper_eq letkite_lite.Prelude.Text.slice_from
asking-served = refl
