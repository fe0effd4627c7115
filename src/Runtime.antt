-- ===== src/Runtime.antt =====
-- src/vpsmcp/runtime.py: who may do what on which host, and the limits of a call.
pub mod Resolve
use letkite_lite.Prelude.{
  ℕ, Bool, true, false, not, ◌&&◌, String, ◌==◌, Option, none, some, List, [], ◌∷◌, eqb, min, max,
  if◌then◌else◌, Result, ok, err, ◌>>=◌,
}
use letkite_lite.Settings
use letkite_lite.Settings.{Settings}
use letkite_lite.Inventory.Host.{Host, node_id}
use letkite_lite.Inventory.Lookup.{InventoryError, Hosts, get, select}
use letkite_lite.Policy.{PolicyError, require_scope, guard}

-- What `get_access_token` returns; a token's missing scopes are [].
pub record AccessToken : Type 0 where
  pub subject : String
  pub client_id : String
  pub scopes : List String

pub data ToolError : Type 0 where
  inventory : InventoryError → ToolError
  read_only : ToolError
  policy : PolicyError → ToolError

-- `raise ToolError(...) from exc`
abbrev pub raise_from : {X A : Type 0} → (X → ToolError) → Result X A → Result ToolError A
raise_from f (err x) = err (f x)
raise_from f (ok a) = ok a

unfoldable pub scopes : Option AccessToken → List String
scopes none = Settings.scopes
scopes (some tok) = tok.scopes

unfoldable pub subject : Option AccessToken → String
subject none = "local"
subject (some tok) = if tok.subject == "" then tok.client_id else tok.subject

unfoldable pub require : Option AccessToken → String → Result ToolError (Unit {0})
unfolding scopes
require tok need = raise_from policy (require_scope (scopes tok) need)

module _ (c : Settings) (tok : Option AccessToken) (hosts : Hosts) where
  unfoldable pub resolve : String → String → Result ToolError Host
  unfolding scopes
  resolve key need = raise_from inventory (get key hosts) >>= (λ host.
      if c.read_only && not (need == "fleet.read")
      then err read_only
      else raise_from policy (guard (scopes tok) host need) >>= (λ u. ok host))

  unfoldable pub resolve_each :
      (String → String) → String → List Host → Result ToolError (List Host)
  unfolding resolve
  resolve_each sha256 need [] = ok []
  resolve_each sha256 need (h ∷ hs) =
      resolve (node_id sha256 h) need >>= (λ g. resolve_each sha256 need hs >>= (λ gs. ok (g ∷ gs)))

  -- `before` is the order of texts.
  unfoldable pub resolve_many :
      (String → String)
      → (String → String → Bool)
      → List String
      → List String
      → String
      → Result ToolError (List Host)
  unfolding resolve_each
  resolve_many sha256 before keys tags need =
      raise_from inventory (select before keys tags hosts) >>= (λ hs. resolve_each sha256 need hs)

-- A timeout of 0 or none is the default; negative ones are not modelled.
unfoldable pub clamp_timeout : Settings → Option ℕ → ℕ
clamp_timeout c none = max 1 (min c.default_timeout c.max_timeout)
clamp_timeout c (some t) = max 1 (min (if eqb t 0 then c.default_timeout else t) c.max_timeout)
