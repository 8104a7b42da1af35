-- ===== src/Tests/Options.antt =====
-- mdriver -t x -f a -V -t y
use jungle_malloc_benchmark.Base.{◌≡◌, refl, List, [], ◌∷◌, map, arith}
use jungle_malloc_benchmark.Driver.{going}
use jungle_malloc_benchmark.Driver.Options.{Options, Team, command_line}
use jungle_malloc_benchmark.Driver.Options.Proper.{Item, encode, last_file}
use jungle_malloc_benchmark.Driver.Options.Choice.{Chooses, command_line-Chooses}
use jungle_malloc_benchmark.Base.{none}

abbrev pub team : Team
team = record { teamname = b't' ∷ []; name1 = b'n' ∷ []; id1 = b'i' ∷ []; name2 = []; id2 = [] }

abbrev items : List Item
items =
    Item.directory (b'x' ∷ [])
    ∷ Item.file (b'a' ∷ [])
    ∷ Item.more_verbose
    ∷ Item.directory (b'y' ∷ [])
    ∷ []

command_line-Chooses_example :
    (o : Options) × (command_line team [] (map encode items) ≡ going o)
    × Chooses [] (last_file none items) o
command_line-Chooses_example =
    command_line-Chooses team [] items
      (record { named = refl; first_name = refl; first_id = refl; second_both = refl })
      ((omega arith, omega arith), (tt, (tt, ((omega arith, omega arith), tt))))
