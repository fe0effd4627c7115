-- ===== src/Tools/Handles/Forwarding.antt =====
-- The tunnel tools of src/vpsmcp/tools/ops.py, with the request that goes through a tunnel.
use Prim.Native.String
use text.Mathlib.Text.{starts_with}
use letkite_lite.Prelude.{
  ℕ, String, Option, none, some, List, [], ◌∷◌, if◌then◌else◌, Result, ok, err,
}
use letkite_lite.Inventory.Host.{Host}
use letkite_lite.Runtime.{ToolError, resolve, require}
use letkite_lite.Ssh.Drain.{Sink, drain_chunk, nothing}
use letkite_lite.Ssh.Holders.{
  Gateway, Tunnel, HolderError, Opening, open_tunnel, get_tunnel, close_tunnel,
}
use letkite_lite.Tools.{Bench}
use letkite_lite.Tools.Handles.{
  tool, holder, request_failed, requested, noted, Handled, Caps, opened, closed_by,
}

abbrev tunnel_open_on :
    Bench → Caps → String → ℕ → ℕ → Opening → Result ToolError Host → Gateway → Handled String
tunnel_open_on b caps id now port o (err e) g = (err (tool e), g, [])
tunnel_open_on b caps id now port o (ok h) g =
    opened "tunnel_open"
      (open_tunnel b.remote b.settings b.hosts caps.max_tunnels id now h port o g)

abbrev tunnel_required :
    Bench
    → Caps
    → String
    → String
    → ℕ
    → ℕ
    → Opening
    → Result ToolError (Unit {0})
    → Gateway
    → Handled String
tunnel_required b caps key id now port o (err e) g = (err (tool e), g, [])
tunnel_required b caps key id now port o (ok u) g =
    tunnel_open_on b caps id now port o (resolve b.settings b.token b.hosts key "fleet.admin") g

unfoldable pub tunnel_open :
    Bench → Caps → String → String → ℕ → ℕ → Opening → Gateway → Handled String
unfolding resolve require open_tunnel
tunnel_open b caps key id now port o g =
    tunnel_required b caps key id now port o (require b.token "fleet.admin") g

-- `_http_capped`: the body is read until the cap is passed.
abbrev after_chunk : Sink → Sink → Sink
after_chunk sink rest = if sink.truncated then sink else rest

unfoldable pub http_body : ℕ → List (List ℕ) → Sink → Sink
unfolding drain_chunk
http_body cap [] sink = sink
http_body cap (chunk ∷ chunks) sink =
    let more = drain_chunk cap chunk sink in after_chunk more (http_body cap chunks more)

-- The answer of the far end: its status and the chunks of its body, none where the request fails.
pub record HttpReply : Type 0 where
  pub status : ℕ
  pub body : Sink

abbrev pub url_path : String → String
url_path path = if starts_with path "/" then path else String.◌++◌ "/" path

abbrev pub replied_with :
    Bench → Tunnel → String → Option (ℕ × List (List ℕ)) → Gateway → Handled HttpReply
replied_with b t path none g = (err request_failed, g, requested t.node_id (url_path path) ∷ [])
replied_with b t path (some (status, chunks)) g = (
  ok record { status = status; body = http_body b.limits.max_output_bytes chunks nothing },
  g,
  requested t.node_id (url_path path) ∷ noted "tunnel_http" ∷ [],
)

abbrev pub http_allowed :
    Bench
    → String
    → (ℕ → String → Option (ℕ × List (List ℕ)))
    → Tunnel
    → Result ToolError Host
    → Gateway
    → Handled HttpReply
http_allowed b path far t (err e) g = (err (tool e), g, [])
http_allowed b path far t (ok h) g = replied_with b t path (far t.local_port (url_path path)) g

abbrev pub http_found :
    Bench
    → String
    → (ℕ → String → Option (ℕ × List (List ℕ)))
    → Result HolderError Tunnel
    → Gateway
    → Handled HttpReply
http_found b path far (err e) g = (err (holder e), g, [])
http_found b path far (ok t) g =
    http_allowed b path far t (resolve b.settings b.token b.hosts t.node_id "fleet.admin") g

abbrev pub http_required :
    Bench
    → String
    → String
    → (ℕ → String → Option (ℕ × List (List ℕ)))
    → Result ToolError (Unit {0})
    → Gateway
    → Handled HttpReply
http_required b id path far (err e) g = (err (tool e), g, [])
http_required b id path far (ok u) g = http_found b path far (get_tunnel id g) g

-- `far` is what a request to a port of the gateway's own address gets.
unfoldable pub tunnel_http :
    Bench
    → String
    → String
    → (ℕ → String → Option (ℕ × List (List ℕ)))
    → Gateway
    → Handled HttpReply
unfolding require get_tunnel resolve http_body
tunnel_http b id path far g = http_required b id path far (require b.token "fleet.admin") g

unfoldable pub tunnel_close : Bench → String → Gateway → Handled (Unit {0})
unfolding require close_tunnel
tunnel_close b id g = closed_by "tunnel_close" (close_tunnel id) (require b.token "fleet.admin") g
