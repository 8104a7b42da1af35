-- ===== src/Driver/Options/Choice.antt =====
-- `main` up to its first measurement (benchmark_base/malloc-lab/mdriver.c): options, team, files.
use jungle_malloc_benchmark.Base.{
  ℕ, ◌-◌, ◌<◌, ◌≡◌, ◌⊎◌, refl, inl, inr, false, Bool-cases, Option, none, some, List, length,
  get_elem?, map, ap, sym, ◌∙◌, All,
}
use jungle_malloc_benchmark.Driver.{going}
use jungle_malloc_benchmark.Driver.Options.{
  Chars, maxline, here, Options, default_options, choose_files, Team, is_empty, check_team,
  command_line,
}
use jungle_malloc_benchmark.Driver.Options.Proper.{
  Item, encode, Fits, last_file, IsProper, options-IsProper, default_options-IsProper,
}

-- A second member has both fields or none.
pub record IsComplete (team : Team) : Type 0 where
  pub named : is_empty team.teamname ≡ false
  pub first_name : is_empty team.name1 ≡ false
  pub first_id : is_empty team.id1 ≡ false
  pub second_both : is_empty team.name2 ≡ is_empty team.id2

check_team-IsComplete : (team : Team) (o : Options) → IsComplete team → check_team team o ≡ going o
unfolding check_team
check_team-IsComplete team o c = elim (Bool-cases o.team_check) [
  | inr e ↦ rw e refl
  | inl e ↦ elim (Bool-cases (is_empty team.id2)) [
    | inl none_two ↦ rw (e, c.named, c.first_name, c.first_id, c.second_both, none_two) refl
    | inr two ↦ rw (e, c.named, c.first_name, c.first_id, c.second_both, two) refl
  ]
]

abbrev pub selected : List Chars → Option (List Chars) → List Chars
selected default_tracefiles none = default_tracefiles
selected default_tracefiles (some files) = files

-- What `main` goes on with, where `files` are those of the last -f.
pub record Chooses (default_tracefiles : List Chars) (files : Option (List Chars)) (o : Options)
    : Type 0 where
  pub trace_names : o.tracefiles ≡ some (selected default_tracefiles files)
  pub count : o.num_tracefiles ≡ length (selected default_tracefiles files)
  pub slash : get_elem? o.tracedir (length o.tracedir - 1) ≡ some b'/'
  pub room : length o.tracedir < maxline
  pub in_place : (files ≡ none) ⊎ (o.tracedir ≡ here)

abbrev count_of : Option (List Chars) → ℕ
count_of none = 0
count_of (some files) = length files

choose_files-Chooses :
    (default_tracefiles : List Chars) (files : Option (List Chars)) (o : Options)
    → IsProper o
    → o.tracefiles ≡ files
    → Chooses default_tracefiles files (choose_files default_tracefiles o)
unfolding choose_files
choose_files-Chooses default_tracefiles none o p same = rw same (record {
  trace_names = refl;
  count = refl;
  slash = p.slash;
  room = p.room;
  in_place = inl refl;
})
choose_files-Chooses default_tracefiles (some files) o p same = elim p.chosen [
  | inl (no_file, count) ↦ absurd (cc (sym same ∙ no_file))
  | inr (name, one_file, count, dir_here) ↦
      let one : length files ≡ 1 = ap count_of (sym same ∙ one_file) in
      rw same (record {
        trace_names = refl;
        count = count ∙ sym one;
        slash = p.slash;
        room = p.room;
        in_place = inr dir_here;
      })
]

-- With complete team data (name, first member, and both fields or none of the second), and for
-- options without -h whose directories are not empty and leave room for a slash in an array of
-- 1024 characters, `main` reaches its measurements: its trace files are the argument of the last
-- -f, or the default ones if there is no -f, `num_tracefiles` is their number, the directory ends
-- with a slash and fits in its array, and it is `./` if there is an -f, wherever -t stands.
pub command_line-Chooses :
    (team : Team) (default_tracefiles : List Chars) (items : List Item)
    → IsComplete team
    → All Fits items
    → (o : Options) × (command_line team default_tracefiles (map encode items) ≡ going o)
      × Chooses default_tracefiles (last_file none items) o
unfolding command_line
command_line-Chooses team default_tracefiles items complete fits =
    let (o, runs, p, files) =
      options-IsProper items default_options fits default_options-IsProper in
    (
      choose_files default_tracefiles o,
      rw (runs, check_team-IsComplete team o complete) refl,
      choose_files-Chooses default_tracefiles (last_file none items) o p files,
    )
