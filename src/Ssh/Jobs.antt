-- ===== src/Ssh/Jobs.antt =====
-- `output`, `kill` and `purge` of src/vpsmcp/ssh/jobs.py: the scripts that they send and what they read in the
-- answer. What a script does on the node is a parameter.
pub mod Reading
pub mod Gapless
use Prim.Native.String
use Prim.Native.String.{[], ◌∷◌}
use Prim.Native.Char.{code}
use mathlib.Core.List
use letkite_lite.Prelude.{
  ℕ, ◌+◌, min, Bool, true, false, ◌||◌, String, ◌==◌, Option, none, some, List, leb, if◌then◌else◌,
}
use letkite_lite.Prelude.Text.{strip}
use letkite_lite.Inventory.Host.{decimal}
use letkite_lite.Ssh.Runner.{Process, ExecResult, ExitCode, quote, build_script, run_command}
use letkite_lite.Ssh.Session.{digits_from, rpartition, rstrip_newlines}

abbrev concat : List String → String
concat List.[] = ""
concat (List.◌∷◌ p ps) = String.◌++◌ p (concat ps)

abbrev job_root : String
job_root = "${VPSMCP_JOB_ROOT:-$HOME/.vpsmcp/jobs}"

-- len(s.encode())
abbrev pub char_bytes : ℕ → ℕ
char_bytes c = if leb c 127 then 1 else if leb c 2047 then 2 else if leb c 65535 then 3 else 4

unfoldable pub encoded_length : String → ℕ
encoded_length [] = 0
encoded_length (c ∷ s) = char_bytes (code c) + encoded_length s

-- The far end: what process a script becomes there, and `decode` as bytes.decode("utf-8", "replace").
pub record Node : Type 0 where
  pub process : String → Process
  pub decode : List ℕ → String

abbrev run_on : Node → ℕ → String → ExecResult
run_on node max_bytes script =
    run_command node.decode max_bytes (node.process (build_script script none List.[] false true))

pub record OutputCall : Type 0 where
  pub job_id : String
  pub stream : String
  pub offset : ℕ
  pub max_bytes : ℕ
  pub tail : Bool

abbrev log_file : OutputCall → String
log_file call = concat (
    List.◌∷◌ "\"" (
      List.◌∷◌ job_root (
        List.◌∷◌ "\"/" (
          List.◌∷◌ (quote call.job_id) (
            List.◌∷◌ "/" (
              List.◌∷◌ (if call.stream == "stderr" then "stderr.log" else "stdout.log")
                List.[]))))))

abbrev size_of : String → String
size_of f =
    concat (List.◌∷◌ "size=$(wc -c < " (List.◌∷◌ f (List.◌∷◌ " 2>/dev/null || echo 0); " List.[])))

abbrev print_size : String
print_size = "printf '\\n__SIZE__%s\\n' \"$size\""

unfoldable pub output_script : OutputCall → String
unfolding quote decimal
output_script call =
    let f = log_file call in
    if call.tail
    then concat (
        List.◌∷◌ (size_of f) (
          List.◌∷◌ "tail -c " (
            List.◌∷◌ (decimal call.max_bytes) (
              List.◌∷◌ " "
                (List.◌∷◌ f (List.◌∷◌ " 2>/dev/null; " (List.◌∷◌ print_size List.[])))))))
    else concat (
        List.◌∷◌ (size_of f) (
          List.◌∷◌ "tail -c +" (
            List.◌∷◌ (decimal (call.offset + 1)) (
              List.◌∷◌ " " (
                List.◌∷◌ f (
                  List.◌∷◌ " 2>/dev/null | head -c " (
                    List.◌∷◌ (decimal call.max_bytes)
                      (List.◌∷◌ "; " (List.◌∷◌ print_size List.[])))))))))

pub record JobOutput : Type 0 where
  pub returned_bytes : ℕ
  pub total_bytes : ℕ
  pub next_offset : ℕ
  pub content : String

-- int(sz.strip()), and 0 for what is no number
abbrev or_zero : Option ℕ → ℕ
or_zero none = 0
or_zero (some n) = n

abbrev pub body_and_size : String → Option (String × String) → String × String
body_and_size stdout none = ("", stdout)
body_and_size stdout (some p) = p

abbrev output_of : OutputCall → String × String → JobOutput
output_of call (body, sz) =
    let content = rstrip_newlines body in
    let total = or_zero (digits_from 0 (strip sz)) in
    record {
      returned_bytes = encoded_length content;
      total_bytes = total;
      next_offset = if call.tail then total else min (call.offset + encoded_length content) total;
      content = content;
    }

-- What is read in the text that the script printed.
unfoldable pub read_output : OutputCall → String → JobOutput
unfolding rpartition rstrip_newlines strip encoded_length
read_output call stdout = output_of call (body_and_size stdout (rpartition "__SIZE__" stdout))

unfoldable pub output : Node → OutputCall → JobOutput
unfolding run_command build_script output_script read_output
output node call =
    read_output call (run_on node (call.max_bytes + 4096) (output_script call)).stdout

-- The answer of `kill` and `purge`.
pub record Answer : Type 0 where
  pub result : String
  pub exit_code : ExitCode

abbrev answer_of : ExecResult → Answer
answer_of res = record { result = strip res.stdout; exit_code = res.exit_code }

abbrev job_dir : String → String
job_dir job_id = concat (
    List.◌∷◌ "d=\""
      (List.◌∷◌ job_root (List.◌∷◌ "\"/" (List.◌∷◌ (quote job_id) (List.◌∷◌ "\n" List.[])))))

unfoldable pub purge_script : String → String
unfolding quote
purge_script job_id = concat (
    List.◌∷◌ "\nset -u\n" (
      List.◌∷◌ (job_dir job_id) (
        List.◌∷◌ "case \"$d\" in *\"/.vpsmcp/jobs/\"*) ;; *) echo \"refuse\"; exit 1;; esac\n" (
          List.◌∷◌ "[ -f \"$d/exit_code\" ] || { echo \"still running\"; exit 2; }\n"
            (List.◌∷◌ "rm -rf -- \"$d\" && echo removed\n" List.[])))))

unfoldable pub purge : Node → String → Answer
unfolding run_command build_script purge_script strip
purge node job_id = answer_of (run_on node 4096 (purge_script job_id))
