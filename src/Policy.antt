-- ===== src/Policy.antt =====
-- src/vpsmcp/policy.py: the command guardrails and the scope checks. The regular expressions keep
-- their text; `search` is what `re` finds.
pub mod Guardrails
use letkite_lite.Prelude.{
  ◌>>=◌, Bool, true, false, not, ◌&&◌, ◌||◌, String, List, [], ◌∷◌, mem, if◌then◌else◌, Result, ok,
  err,
}
use letkite_lite.Prelude.Text.{words, unwords}
use letkite_lite.Inventory.Host.{Host, allows}

pub record Rule : Type 0 where
  pub pattern : String
  -- the flag re.I
  pub ignore_case : Bool
  pub why : String

abbrev rule : String → String → Rule
rule p w = record { pattern = p; ignore_case = false; why = w }

abbrev pub deny : List Rule
deny =
    rule "\\brm\\s+(-[a-zA-Z]*\\s+)*-[a-zA-Z]*[rR][a-zA-Z]*f?[a-zA-Z]*\\s+/(\\s|$)" "rm -rf /"
    ∷ rule "\\bmkfs(\\.\\w+)?\\b" "format filesystem"
    ∷ rule "\\bdd\\b[^|;&]*\\bof=/dev/(sd|nvme|vd|xvd)" "dd to raw disk"
    ∷ rule ":\\(\\)\\s*\\{\\s*:\\|:&\\s*\\}\\s*;\\s*:" "fork bomb"
    ∷ rule "\\b(shred|wipefs)\\b[^|;&]*/dev/" "wipe block device"
    ∷ rule ">\\s*/dev/(sd|nvme|vd|xvd)[a-z0-9]*\\s*$" "overwrite raw disk"
    ∷ []

abbrev pub confirm_first : List Rule
confirm_first =
    rule "\\b(reboot|shutdown|halt|poweroff)\\b" "reboot/shutdown"
    ∷ rule "\\bsystemctl\\s+(stop|disable|mask)\\b" "stop systemd service"
    ∷ rule "\\b(iptables|nft|ufw)\\b.*\\b(-F|flush|reset)\\b" "flush firewall rules"
    ∷ rule "\\buserdel\\b|\\bpasswd\\b\\s+\\w+" "modify accounts"
    ∷ rule "\\brm\\s+(-[a-zA-Z]*\\s+)*-[a-zA-Z]*[rR]" "recursive delete"
    ∷ rule "\\b(apt-get|apt|yum|dnf|apk)\\b.*\\b(remove|purge|autoremove)\\b" "remove packages"
    ∷ record {
      pattern = "\\bdrop\\s+(database|table)\\b";
      ignore_case = true;
      why = "drop database/table";
    }
    ∷ rule "\\bgit\\b.*\\bpush\\b.*(--force|-f)\\b" "force push"
    ∷ rule "\\bchmod\\s+(-R\\s+)?777\\b" "chmod 777"
    ∷ []

pub data PolicyError : Type 0 where
  -- the reason of the rule
  refused : String → PolicyError
  unconfirmed : String → PolicyError
  -- the scope that the token lacks
  token_lacks : String → PolicyError
  -- the host's alias, and the scope
  host_denies : String → String → PolicyError

-- re.compile(pattern).search(text) is a match
module _ (search : Rule → String → Bool) where
  unfoldable pub check_deny : List Rule → String → Result PolicyError (Unit {0})
  check_deny [] flat = ok tt
  check_deny (r ∷ rules) flat =
      let rest = check_deny rules flat in if search r flat then err (refused r.why) else rest

  unfoldable pub check_confirm : List Rule → Bool → String → Result PolicyError (List String)
  check_confirm [] confirm flat = ok []
  check_confirm (r ∷ rules) confirm flat =
      let rest = check_confirm rules confirm flat in
      if search r flat
      then if confirm then rest >>= (λ warnings. ok (r.why ∷ warnings)) else err (unconfirmed r.why)
      else rest

  unfoldable pub check_command : String → Bool → Bool → Result PolicyError (List String)
  unfolding check_deny check_confirm
  check_command command confirm enabled =
      let flat = unwords (words command) in
      if enabled
      then check_deny deny flat >>= (λ u. check_confirm confirm_first confirm flat)
      else ok []

unfoldable pub require_scope : List String → String → Result PolicyError (Unit {0})
require_scope token needed =
    if not (mem needed token) && not (mem "fleet.admin" token)
    then err (token_lacks needed)
    else ok tt

unfoldable pub require_host_scope : Host → String → Result PolicyError (Unit {0})
unfolding allows
require_host_scope host needed =
    if not (allows host needed) && not (allows host "fleet.admin")
    then err (host_denies host.alias needed)
    else ok tt

unfoldable pub guard : List String → Host → String → Result PolicyError (Unit {0})
unfolding require_scope require_host_scope
guard token host needed = require_scope token needed >>= (λ u. require_host_scope host needed)
