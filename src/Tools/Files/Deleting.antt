-- ===== src/Tools/Files/Deleting.antt =====
-- What `delete_path` of src/vpsmcp/tools/files.py runs, and when.
use Prim.Native.String
use text.Mathlib.Text.{starts_with}
use text.Mathlib.TextLemmas.{append_assoc}
use letkite_lite.Prelude.{
  ◌≤◌, arith, mem, sym, ap, ◌∙◌, ◌∷◌, ℕ, Bool, true, false, not, String, ◌≡◌, refl, Option, none,
  some, [], if◌then◌else◌, Result, ok, err, All,
}
use letkite_lite.Inventory.Host.{Host}
use letkite_lite.Inventory.Lookup.{get}
use letkite_lite.Runtime.{ToolError, resolve}
use letkite_lite.Runtime.Resolve.{IsAllowed, resolve-IsAllowed}
use letkite_lite.Ssh.Pool.{Pool, SshError}
use letkite_lite.Ssh.Runner.{Process, quote}
use letkite_lite.Ssh.Runner.Quoting.{words, read_words-quote_end}
use letkite_lite.Ssh.Runner.Quoting.Scripts.{build_script-words, bare_word, shell_words, script_of}
use letkite_lite.Tools.{Bench, Failure, Done, conn}
use letkite_lite.Tools.Core.Guarded.{MayRun}
use letkite_lite.Tools.Paths.{normpath, is_refused, occurrences, system_paths}
use letkite_lite.Tools.Files.{
  DeleteCall, delete_path, delete_on, delete_conn, deleted, rm_line, rm_command,
}

abbrev flag_of : Bool → String
flag_of recursive = if recursive then "-rf" else "-f"

pub record IsDeletable (b : Bench) (call : DeleteCall) (h : Host) (line : String) : Type 0 where
  pub confirmed : call.confirm ≡ true
  pub absolute : starts_with (normpath call.path) "/" ≡ true
  pub unlisted : mem (normpath call.path) system_paths ≡ false
  pub deep : 2 ≤ occurrences b'/' (normpath call.path)
  pub found : get call.host b.hosts ≡ ok h
  pub allowed : IsAllowed b.settings b.token "fleet.write" h
  -- the script is a command, and after it, if it succeeds, `echo removed`
  pub removal : String
  pub script :
      words line
      ≡ some (shell_words false true (script_of (String.◌++◌ removal " && echo removed") none []))
  pub read_as :
      words removal ≡ some ("rm" ∷ flag_of call.recursive ∷ "--" ∷ normpath call.path ∷ [])

abbrev rm_of : Bool → String → String
rm_of recursive norm =
    String.◌++◌ "rm " (String.◌++◌ (flag_of recursive) (String.◌++◌ " -- " (quote norm)))

flag_words :
    (recursive : Bool) (norm : String)
    → words (String.◌++◌ (flag_of recursive) (String.◌++◌ " -- " (quote norm)))
      ≡ some (flag_of recursive ∷ "--" ∷ norm ∷ [])
flag_words true norm =
    ap words (
      ap (String.◌++◌ "-rf") (append_assoc " " "-- " (quote norm)) ∙ sym (append_assoc "-rf" " " _))
    ∙ bare_word "-" "rf" _ _ refl (bare_word "-" "-" _ _ refl (read_words-quote_end false norm))
flag_words false norm =
    ap words
      (ap (String.◌++◌ "-f") (append_assoc " " "-- " (quote norm)) ∙ sym (append_assoc "-f" " " _))
    ∙ bare_word "-" "f" _ _ refl (bare_word "-" "-" _ _ refl (read_words-quote_end false norm))

-- A shell reads the removal as four words, whatever the path holds.
rm_of-words :
    (recursive : Bool) (norm : String)
    → words (rm_of recursive norm) ≡ some ("rm" ∷ flag_of recursive ∷ "--" ∷ norm ∷ [])
rm_of-words recursive norm = bare_word "r" "m" _ _ refl (flag_words recursive norm)

rm_command-rm_of :
    (recursive : Bool) (norm : String)
    → rm_command recursive norm ≡ String.◌++◌ (rm_of recursive norm) " && echo removed"
rm_command-rm_of recursive norm = rw (
  append_assoc "rm " (String.◌++◌ (flag_of recursive) (String.◌++◌ " -- " (quote norm)))
      " && echo removed",
  append_assoc (flag_of recursive) (String.◌++◌ " -- " (quote norm)) " && echo removed",
  append_assoc " -- " (quote norm) " && echo removed",
)

unrefused :
    (norm : String)
    → is_refused norm ≡ false
    → (starts_with norm "/" ≡ true) × (mem norm system_paths ≡ false) × (2 ≤ occurrences b'/' norm)
unfolding is_refused
unrefused norm h = ground (arith, h)

-- Two guards in front of what runs.
after_guards-may :
    (P : Host → String → Type 0) (confirm refused : Bool) (unsure system : Failure)
    (go : Done String) (pool : Pool)
    → (confirm ≡ true → refused ≡ false → All (MayRun P) go.2)
    → All
        (MayRun P)
        (if not confirm
          then (err unsure, pool, [])
          else if refused
          then (err system, pool, [])
          else go).2
after_guards-may P false refused unsure system go pool p = tt
after_guards-may P true true unsure system go pool p = tt
after_guards-may P true false unsure system go pool p = p refl refl

module _ (b : Bench) (call : DeleteCall) where
  deleted-may :
      (P : Host → String → Type 0) (h : Host) (o : Option Process) (pool : Pool)
      → P h (rm_line call)
      → All (MayRun P) (deleted b call h o pool).2
  deleted-may P h none pool p = (p, tt)
  deleted-may P h (some q) pool p = (p, (tt, tt))

  delete_conn-may :
      (P : Host → String → Type 0) (h : Host) (r : Result SshError ℕ × Pool)
      → P h (rm_line call)
      → All (MayRun P) (delete_conn b call h r).2
  delete_conn-may P h (err e, pool) p = tt
  delete_conn-may P h (ok c, pool) p = deleted-may P h (b.process c (rm_line call)) pool p

  delete_on-may :
      (P : Host → String → Type 0) (now : ℕ) (r : Result ToolError Host) (pool : Pool)
      → ((h : Host) → r ≡ ok h → P h (rm_line call))
      → All (MayRun P) (delete_on b call now r pool).2
  delete_on-may P now (err e) pool p = tt
  delete_on-may P now (ok h) pool p = delete_conn-may P h (conn b now h pool) (p h refl)

  -- `delete_path` runs its command only if the call is confirmed, the path's normal form is absolute, has
  -- two slashes and is none of the listed texts (//etc is no such text), and the token, the host and the gateway's mode
  -- allow writing. The host's shell reads the line as a script of one command before `&& echo removed`, and reads that
  -- command as four words: rm, its flag, -- and the normal form itself, whatever the path holds.
  pub delete_path-IsDeletable :
      (now : ℕ) (pool : Pool) → All (MayRun (IsDeletable b call)) (delete_path b call now pool).2
  unfolding delete_path
  delete_path-IsDeletable now pool =
      after_guards-may (IsDeletable b call) call.confirm (is_refused (normpath call.path)) _ _
        (delete_on b call now (resolve b.settings b.token b.hosts call.host "fleet.write") pool)
        pool
        (λ confirmed free.
          delete_on-may (IsDeletable b call) now
            (resolve b.settings b.token b.hosts call.host "fleet.write") pool
            (λ h e.
              let (found, allowed) =
                resolve-IsAllowed b.settings b.token b.hosts call.host "fleet.write" h e in
              record {
                confirmed = confirmed;
                absolute = let (a, u, d) = unrefused (normpath call.path) free in a;
                unlisted = let (a, u, d) = unrefused (normpath call.path) free in u;
                deep = let (a, u, d) = unrefused (normpath call.path) free in d;
                found = found;
                allowed = allowed;
                removal = rm_of call.recursive (normpath call.path);
                script =
                    build_script-words (rm_command call.recursive (normpath call.path)) none []
                      false true
                    ∙ ap (λ t. some (shell_words false true (script_of t none [])))
                        (rm_command-rm_of call.recursive (normpath call.path));
                read_as = rm_of-words call.recursive (normpath call.path);
              }))
