-- ===== src/Driver/Options.antt =====
-- The command line of `main` (benchmark_base/malloc-lab/mdriver.c). `getopt` is a parameter: what
-- it returns, a letter and its argument, is a list. A string is the list of its characters.
pub mod Proper
pub mod Choice
use jungle_malloc_benchmark.Base.{
  ℕ, zero, suc, ◌+◌, ◌-◌, Bool, true, false, not, ◌&&◌, ◌||◌, ltb, ◌==◌, if◌then◌else◌, Option,
  none, some, List, [], ◌∷◌, ◌++◌, length, get_elem?,
}
use jungle_malloc_benchmark.Driver.{Step, going, exited, crashed, then_step}

abbrev pub Chars : Type 0
Chars = List ℕ

abbrev pub maxline : ℕ
maxline = 1024

abbrev pub trace_dir : Chars
trace_dir = b'.' ∷ b'/' ∷ b't' ∷ b'r' ∷ b'a' ∷ b'c' ∷ b'e' ∷ b's' ∷ b'/' ∷ []

abbrev pub here : Chars
here = b'.' ∷ b'/' ∷ []

pub record Options : Type 0 where
  pub tracefiles : Option (List Chars)
  pub num_tracefiles : ℕ
  pub tracedir : Chars
  pub team_check : Bool
  pub run_libc : Bool
  pub autograder : Bool
  pub verbose : ℕ

abbrev pub default_options : Options
default_options = record {
  tracefiles = none;
  num_tracefiles = 0;
  tracedir = trace_dir;
  team_check = true;
  run_libc = false;
  autograder = false;
  verbose = 0;
}

-- `strcat(tracedir, "/")`, undefined where the array has no room.
unfoldable pub add_slash : Chars → Step Chars
add_slash dir = if ltb (length dir + 1) maxline then going (dir ++ (b'/' ∷ [])) else crashed

-- The case 't'. The last character of an empty string is read outside of the array.
unfoldable pub set_tracedir : Chars → Step Chars
set_tracedir optarg =
    if ltb (length optarg) maxline
    then elim (get_elem? optarg (length optarg - 1)) [
      | none ↦ crashed
      | some last ↦ if last == b'/' then going optarg else add_slash optarg
    ]
    else crashed

unfoldable pub option : ℕ → Chars → Options → Step Options
option c optarg o =
    if c == b'g'
    then going (record o { autograder = true })
    else if c == b'f'
    then going (record o { num_tracefiles = 1; tracedir = here; tracefiles = some (optarg ∷ []) })
    else if c == b't'
    then (if o.num_tracefiles == 1
        then going o
        else then_step (set_tracedir optarg) λ dir. going (record o { tracedir = dir }))
    else if c == b'a'
    then going (record o { team_check = false })
    else if c == b'l'
    then going (record o { run_libc = true })
    else if c == b'v'
    then going (record o { verbose = 1 })
    else if c == b'V'
    then going (record o { verbose = 2 })
    else exited

unfoldable pub options : List (ℕ × Chars) → Options → Step Options
options [] o = going o
options ((c, optarg) ∷ rest) o = then_step (option c optarg o) λ o1. options rest o1

-- Without -f, the default files.
unfoldable pub choose_files : List Chars → Options → Options
choose_files default_tracefiles o = elim o.tracefiles [
  | some files ↦ o
  | none ↦ record o {
    tracefiles = some default_tracefiles;
    num_tracefiles = length default_tracefiles;
  }
]

-- The team of mm.c.
pub record Team : Type 0 where
  pub teamname : Chars
  pub name1 : Chars
  pub id1 : Chars
  pub name2 : Chars
  pub id2 : Chars

abbrev pub is_empty : Chars → Bool
is_empty [] = true
is_empty (c ∷ cs) = false

unfoldable pub check_team : Team → Options → Step Options
check_team team o =
    if not o.team_check
    then going o
    else if is_empty team.teamname
    then exited
    else if is_empty team.name1 || is_empty team.id1
    then exited
    else if (not (is_empty team.name2) && is_empty team.id2)
        || (is_empty team.name2 && not (is_empty team.id2))
    then exited
    else going o

-- `main` up to the first call of the timing package.
unfoldable pub command_line : Team → List Chars → List (ℕ × Chars) → Step Options
command_line team default_tracefiles args =
    then_step (options args default_options)
      λ o. then_step (check_team team o) λ o1. going (choose_files default_tracefiles o1)
