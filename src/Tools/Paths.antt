-- ===== src/Tools/Paths.antt =====
-- `posixpath.normpath`, as src/vpsmcp/tools/files.py uses it, and its test of a path that may be deleted.
use Prim.Native.String
use Prim.Native.String.{[], ◌∷◌}
use Prim.Native.Char.{code}
use text.Mathlib.Text.{starts_with}
use letkite_lite.Prelude.{
  ℕ, suc, Bool, not, ◌&&◌, ◌||◌, String, ◌==◌, List, mem, ltb, eqb, if◌then◌else◌,
}
use letkite_lite.Prelude.Text.{split_on}

-- The components so far, last first: a `..` takes one back, unless there is none or it is itself one.
abbrev step_up : Bool → List String → List String
step_up rooted List.[] = if rooted then List.[] else List.◌∷◌ ".." List.[]
step_up rooted (List.◌∷◌ c cs) = if c == ".." then List.◌∷◌ ".." (List.◌∷◌ c cs) else cs

abbrev step : Bool → String → List String → List String
step rooted c cs =
    if c == "" || c == "." then cs else if c == ".." then step_up rooted cs else List.◌∷◌ c cs

abbrev components : Bool → List String → List String → List String
components rooted List.[] cs = cs
components rooted (List.◌∷◌ c more) cs = components rooted more (step rooted c cs)

abbrev join_back : List String → String → String
join_back List.[] s = s
join_back (List.◌∷◌ c cs) s =
    join_back cs (if s == "" then c else String.◌++◌ c (String.◌++◌ "/" s))

-- Two slashes at the start stay two; one, or more than two, are one.
abbrev root_of : String → String
root_of s =
    if not (starts_with s "/")
    then ""
    else if starts_with s "//" && not (starts_with s "///")
    then "//"
    else "/"

unfoldable pub normpath : String → String
normpath path =
    let root = root_of path in
    let body = join_back (components (not (root == "")) (split_on b'/' path) List.[]) "" in
    let whole = String.◌++◌ root body in
    if path == "" then "." else if whole == "" then "." else whole

-- s.count(c)
abbrev pub occurrences : ℕ → String → ℕ
occurrences c [] = 0
occurrences c (d ∷ s) = let rest = occurrences c s in if eqb (code d) c then suc rest else rest

abbrev pub system_paths : List String
system_paths = List.◌∷◌ "/" (
    List.◌∷◌ "/etc" (
      List.◌∷◌ "/usr" (
        List.◌∷◌ "/var" (
          List.◌∷◌ "/bin" (
            List.◌∷◌ "/sbin" (
              List.◌∷◌ "/lib" (
                List.◌∷◌ "/boot" (
                  List.◌∷◌ "/home"
                    (List.◌∷◌ "/root" (List.◌∷◌ "/opt" (List.◌∷◌ "/srv" List.[])))))))))))

unfoldable pub is_refused : String → Bool
is_refused norm =
    not (starts_with norm "/") || ltb (occurrences b'/' norm) 2 || mem norm system_paths
