-- ===== src/Tests/Scripts.antt =====
-- Command lines and log histories on small inputs.
use letkite_lite.Prelude.{true, false, String, ◌≡◌, ◌+◌, refl, arith, Option, some, List, [], ◌∷◌}
use letkite_lite.Ssh.Runner.{build_script, export_line}
use letkite_lite.Ssh.Runner.Quoting.{words}
use letkite_lite.Ssh.Runner.Quoting.Scripts.{
  build_script-words, export_line-words, shell_words, script_of,
}
use letkite_lite.Ssh.Jobs.{OutputCall, JobOutput, read_output}
use letkite_lite.Ssh.Jobs.Reading.{printed}
use letkite_lite.Ssh.Jobs.Gapless.{part_of, read_output-gapless}
use letkite_lite.Ssh.Session.{text_length}
use letkite_lite.Prelude.Text.{slice_to, slice_from}
use letkite_lite.Ssh.Logs.{pump, read, next_after}
use letkite_lite.Ssh.Logs.History.{read-pump, new_log, window}

abbrev variables : List (String × String)
variables = ("GREETING", "it's $(late)") ∷ []

build_script-words_example :
    words (build_script "echo \"$GREETING\"" (some "/srv/my app") variables true true)
    ≡ some (shell_words true true (script_of "echo \"$GREETING\"" (some "/srv/my app") variables))
build_script-words_example =
    build_script-words "echo \"$GREETING\"" (some "/srv/my app") variables true true

abbrev exported : Option (List String)
exported = some ("export" ∷ "GREETING=it's $(late)" ∷ [])

export_line-words_example : words (export_line "GREETING" "it's $(late)") ≡ exported
export_line-words_example = export_line-words "GREETING" "it's $(late)"

abbrev three_lines : List String
three_lines = "a" ∷ "b" ∷ "c" ∷ []

read-pump_example :
    read (pump three_lines (new_log 2)) 0 10
    ≡ (window 2 0 10 three_lines, next_after 0 (window 2 0 10 three_lines))
read-pump_example = read-pump 2 0 10 three_lines

abbrev output_call : OutputCall
output_call = record {
  job_id = "job_1";
  stream = "stdout";
  offset = 5;
  max_bytes = 100;
  tail = false;
}

-- A log that has the marker in it, and newlines at its end.
abbrev job_log : String
job_log = "12345a\n__SIZE__7\nb\n\n"

abbrev job_reply : JobOutput
job_reply = read_output output_call (printed (part_of output_call job_log) "20")

read_output-gapless_example :
    (job_reply.next_offset ≡ 5 + text_length job_reply.content)
    × (job_reply.content ≡ slice_to (text_length job_reply.content) (slice_from 5 job_log))
unfolding letkite_lite.Prelude.Text.is_ascii
read_output-gapless_example =
    read_output-gapless output_call job_log "20" refl refl (omega arith)
      (omega arith, omega arith, (omega arith, omega arith, tt)) refl

stays_at_newlines : (read_output output_call (printed "\n\n\n" "42")).next_offset ≡ 5
unfolding read_output letkite_lite.Prelude.Text.slice_from
stays_at_newlines = refl
