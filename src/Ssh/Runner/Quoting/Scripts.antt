-- ===== src/Ssh/Runner/Quoting/Scripts.antt =====
-- How a shell reads the line of `build_script` of src/vpsmcp/ssh/runner.py, and its lines that set variables.
use Prim.Native.String
use Prim.Native.String.{[], ◌∷◌}
use Prim.Native.Char.{Char}
use text.Mathlib.TextLemmas.{nil-append, cons-append, append-nil, append_assoc}
use letkite_lite.Prelude.{
  Bool, true, false, String, ◌≡◌, refl, sym, ap, ◌∙◌, Option, some, List, if◌then◌else◌,
}
use letkite_lite.Ssh.Runner.{
  quote, build_script, export_line, all_safe, join_lines, exports, change_dir,
}
use letkite_lite.Ssh.Runner.Quoting.{
  plain, read_words, words, space, blank-safe, plain-safe, grow_all, grow_all-some,
  read_words-quote, read_words-quote_end,
}

-- `script_of` is what the far shell is to run, line by line.
abbrev pub script_of : String → Option String → List (String × String) → String
script_of command cwd env = join_lines (
    List.◌∷◌ "set -o pipefail 2>/dev/null || true"
      (exports env (change_dir cwd (List.◌∷◌ command List.[]))))

abbrev pub shell_words : Bool → Bool → String → List String
shell_words sudo login_shell script =
    let flag = if login_shell then "-lc" else "-c" in
    let inner = List.◌∷◌ "bash" (List.◌∷◌ flag (List.◌∷◌ script List.[])) in
    if sudo then List.◌∷◌ "sudo" (List.◌∷◌ "-n" (List.◌∷◌ "-H" inner)) else inner

after_blank :
    (t : String) (ws : List String)
    → words t ≡ some ws
    → read_words plain (String.◌++◌ " " t) ≡ some (List.◌∷◌ "" ws)
unfolding read_words
after_blank t ws e = rw (cons-append space "" t, nil-append t, e) refl

-- A bare word, a blank, and what is read after them.
pub bare_word :
    (c : Char) (s t : String) (ws : List String)
    → all_safe (c ∷ s) ≡ true
    → words t ≡ some ws
    → words (String.◌++◌ (String.◌++◌ (c ∷ s) " ") t) ≡ some (List.◌∷◌ (c ∷ s) ws)
bare_word c s t ws h e =
    rw (append_assoc (c ∷ s) " " t, blank-safe c s (String.◌++◌ " " t) h, after_blank t ws e)
      (grow_all-some (c ∷ s) "" ws ∙ rw (append-nil (c ∷ s)) refl)

flagged :
    (login_shell : Bool) (script : String)
    → words (
        String.◌++◌ "bash "
          (String.◌++◌ (if login_shell then "-lc" else "-c") (String.◌++◌ " " (quote script))))
      ≡ some (shell_words false login_shell script)
flagged true script = bare_word "b" "ash" _ _ refl (
    ap words (sym (append_assoc "-lc" " " (quote script)))
    ∙ bare_word "-" "lc" _ _ refl (read_words-quote_end false script))
flagged false script = bare_word "b" "ash" _ _ refl (
    ap words (sym (append_assoc "-c" " " (quote script)))
    ∙ bare_word "-" "c" _ _ refl (read_words-quote_end false script))

sudo_words :
    (t : String) (ws : List String)
    → words t ≡ some ws
    → words (String.◌++◌ "sudo -n -H " t)
      ≡ some (List.◌∷◌ "sudo" (List.◌∷◌ "-n" (List.◌∷◌ "-H" ws)))
sudo_words t ws e =
    ap words
      (append_assoc "sudo " "-n -H " t ∙ ap (String.◌++◌ "sudo ") (append_assoc "-n " "-H " t))
    ∙ bare_word "s" "udo" _ _ refl (bare_word "-" "n" _ _ refl (bare_word "-" "H" _ _ refl e))

-- Whatever the command, the directory and the environment hold, a shell reads the line that is sent to the
-- far end as `bash`, one flag and one word, which is the script, after `sudo -n -H` if it is asked for.
pub build_script-words :
    (command : String) (cwd : Option String) (env : List (String × String))
    (sudo login_shell : Bool)
    → words (build_script command cwd env sudo login_shell)
      ≡ some (shell_words sudo login_shell (script_of command cwd env))
unfolding build_script
build_script-words command cwd env true login_shell =
    sudo_words _ _ (flagged login_shell (script_of command cwd env))
build_script-words command cwd env false login_shell =
    flagged login_shell (script_of command cwd env)

-- It is two words, and the second is the name and the value with `=` between them, whatever they hold.
pub export_line-words :
    (k v : String)
    → words (export_line k v)
      ≡ some (List.◌∷◌ "export" (List.◌∷◌ (String.◌++◌ k (String.◌++◌ "=" v)) List.[]))
export_line-words k v = bare_word "e" "xport" _ _ refl (
    read_words-quote false k (String.◌++◌ "=" (quote v))
    ∙ ap (grow_all k)
        (plain-safe "=" (quote v) refl ∙ ap (grow_all "=") (read_words-quote_end true v))
    ∙ ap (grow_all k) (grow_all-some "=" v List.[])
    ∙ grow_all-some k (String.◌++◌ "=" v) List.[])
