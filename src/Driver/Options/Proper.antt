-- ===== src/Driver/Options/Proper.antt =====
-- What the command line of `main` (benchmark_base/malloc-lab/mdriver.c) selects.
use jungle_malloc_benchmark.Base.{
  ℕ, ◌+◌, ◌-◌, ◌<◌, ◌≡◌, ◌⊎◌, refl, inl, inr, true, false, lt→ltb, ◌==◌, Bool-cases, Option, none,
  some, List, [], ◌∷◌, ◌++◌, length, length-append, get_elem?, get_elem?-some, get_elem?-snoc, map,
  arith, ap, sym, ◌∙◌, All,
}
use jungle_malloc_benchmark.Driver.{going}
use jungle_malloc_benchmark.Driver.Options.{
  Chars, maxline, here, Options, default_options, add_slash, set_tracedir, option, options,
}

-- The options other than -h.
pub data Item : Type 0 where
  summary : Item
  file : Chars → Item
  directory : Chars → Item
  no_team : Item
  libc : Item
  breakdown : Item
  more_verbose : Item

abbrev pub encode : Item → ℕ × Chars
encode summary = (b'g', [])
encode (file name) = (b'f', name)
encode (directory dir) = (b't', dir)
encode no_team = (b'a', [])
encode libc = (b'l', [])
encode breakdown = (b'v', [])
encode more_verbose = (b'V', [])

-- A directory is not empty and fits in the array, with a slash behind it.
abbrev pub Fits : Item → Type 0
Fits (directory dir) = (0 < length dir) × (length dir + 1 < maxline)
Fits _ = Unit

abbrev pub last_file : Option (List Chars) → List Item → Option (List Chars)
last_file files [] = files
last_file files (file name ∷ items) = last_file (some (name ∷ [])) items
last_file files (_ ∷ items) = last_file files items

-- The directory ends with a slash and fits in the array, and is "./" if there is a file.
pub record IsProper (o : Options) : Type 0 where
  pub slash : get_elem? o.tracedir (length o.tracedir - 1) ≡ some b'/'
  pub room : length o.tracedir < maxline
  pub chosen :
      (o.tracefiles ≡ none) × (o.num_tracefiles ≡ 0)
      ⊎ (name : Chars) × (o.tracefiles ≡ some (name ∷ []))
        × (o.num_tracefiles ≡ 1)
        × (o.tracedir ≡ here)

abbrev Selects : Item → Options → Type 0
Selects item o =
    (o' : Options) × (option (encode item).0 (encode item).1 o ≡ going o')
    × IsProper o'
    × (o'.tracefiles ≡ last_file o.tracefiles (item ∷ []))

set_tracedir-slash :
    (dir : Chars)
    → 0 < length dir
    → length dir + 1 < maxline
    → (dir' : Chars) × (set_tracedir dir ≡ going dir')
      × (get_elem? dir' (length dir' - 1) ≡ some b'/')
      × (length dir' < maxline)
unfolding set_tracedir add_slash
set_tracedir-slash dir pos fits =
    let (c, last) = get_elem?-some dir (length dir - 1) (omega arith) in
    let whole = lt→ltb (length dir) maxline (omega arith) in
    elim (Bool-cases (c == b'/')) [
      | inl e ↦
          let same : c ≡ b'/' = ground arith in
          (dir, rw (whole, last, e) refl, last ∙ ap some same, omega arith)
      | inr e ↦
          let grown : length (dir ++ (b'/' ∷ [])) ≡ length dir + 1 =
            length-append dir (b'/' ∷ []) in
          let at_end : length (dir ++ (b'/' ∷ [])) - 1 ≡ length dir = omega arith in
          (
            dir ++ (b'/' ∷ []),
            rw (whole, last, e, lt→ltb (length dir + 1) maxline fits) refl,
            ap (get_elem? (dir ++ (b'/' ∷ []))) at_end ∙ get_elem?-snoc dir b'/',
            omega arith,
          )
    ]

option-Selects : (item : Item) (o : Options) → Fits item → IsProper o → Selects item o
unfolding option
option-Selects summary o fits p = (
  record o { autograder = true },
  refl,
  record { slash = p.slash; room = p.room; chosen = p.chosen },
  refl,
)
option-Selects (file name) o fits p = (
  record o { num_tracefiles = 1; tracedir = here; tracefiles = some (name ∷ []) },
  refl,
  record { slash = refl; room = omega arith; chosen = inr (name, refl, refl, refl) },
  refl,
)
option-Selects (directory dir) o fits p = elim p.chosen [
  | inl (no_file, count) ↦
      let (dir', set_dir, slash, room) = set_tracedir-slash dir fits.0 fits.1 in
      (
        record o { tracedir = dir' },
        rw (count, set_dir) refl,
        record { slash = slash; room = room; chosen = inl (no_file, count) },
        refl,
      )
  | inr (name, some_file, count, dir_here) ↦ (o, rw count refl, p, refl)
]
option-Selects no_team o fits p = (
  record o { team_check = false },
  refl,
  record { slash = p.slash; room = p.room; chosen = p.chosen },
  refl,
)
option-Selects libc o fits p = (
  record o { run_libc = true },
  refl,
  record { slash = p.slash; room = p.room; chosen = p.chosen },
  refl,
)
option-Selects breakdown o fits p = (
  record o { verbose = 1 },
  refl,
  record { slash = p.slash; room = p.room; chosen = p.chosen },
  refl,
)
option-Selects more_verbose o fits p = (
  record o { verbose = 2 },
  refl,
  record { slash = p.slash; room = p.room; chosen = p.chosen },
  refl,
)

last_file-cons :
    (item : Item) (items : List Item) (files : Option (List Chars))
    → last_file files (item ∷ items) ≡ last_file (last_file files (item ∷ [])) items
last_file-cons summary items files = refl
last_file-cons (file name) items files = refl
last_file-cons (directory dir) items files = refl
last_file-cons no_team items files = refl
last_file-cons libc items files = refl
last_file-cons breakdown items files = refl
last_file-cons more_verbose items files = refl

pub options-IsProper :
    (items : List Item) (o : Options)
    → All Fits items
    → IsProper o
    → (o' : Options) × (options (map encode items) o ≡ going o')
      × IsProper o'
      × (o'.tracefiles ≡ last_file o.tracefiles items)
unfolding options
options-IsProper [] o fits p = (o, refl, p, refl)
options-IsProper (item ∷ items) o (fits, rest_fits) p =
    let (o1, first, p1, files1) = option-Selects item o fits p in
    let (o', rest, p', files') = options-IsProper items o1 rest_fits p1 in
    (
      o',
      rw (options, first) rest,
      p',
      files'
          ∙ ap (λ files. last_file files items) files1
          ∙ sym (last_file-cons item items o.tracefiles),
    )

pub default_options-IsProper : IsProper default_options
default_options-IsProper = record { slash = refl; room = omega arith; chosen = inl (refl, refl) }
