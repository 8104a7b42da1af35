-- ===== src/Driver/Inversion.antt =====
-- What a piece of the driver did, where it went through.
use jungle_malloc_benchmark.Base.{
  ◌≡◌, refl, Bool, true, false, not, if◌then◌else◌, ℕ, Option, none, some, List, get_elem?,
}
use jungle_malloc_benchmark.Machine.{State, Run, ok, fault, out_of_fuel}
use jungle_malloc_benchmark.Driver.{
  Driver, Step, going, invalid, exited, crashed, unfinished, then_step, call, at_index,
  malloc_error,
}

pub then_step-going :
    {A B : Type 0} (x : Step A) (k : A → Step B) (b : B)
    → then_step x k ≡ going b
    → (y : A) × (x ≡ going y) × (k y ≡ going b)
then_step-going (going y) k b e = (y, refl, e)
then_step-going (invalid d) k b e = absurd (cc e)
then_step-going exited k b e = absurd (cc e)
then_step-going crashed k b e = absurd (cc e)
then_step-going unfinished k b e = absurd (cc e)

pub call-going :
    {A B : Type 0} (d : Driver) (run : Run A) (k : A → Driver → Step B) (b : B)
    → call d run k ≡ going b
    → (x : A) × (s : State) × (run ≡ ok x s) × (k x (record d { machine = s }) ≡ going b)
call-going d (ok x s) k b e = (x, s, refl, e)
call-going d fault k b e = absurd (cc e)
call-going d out_of_fuel k b e = absurd (cc e)

pub unless_exited :
    {B : Type 0} (done : Bool) (x : Step B) (b : B)
    → (if not done then exited else x) ≡ going b
    → (done ≡ true) × (x ≡ going b)
unless_exited true x b e = (refl, e)
unless_exited false x b e = absurd (cc e)

pub unless_error :
    (wrong : Bool) (d : Driver) (x : Step Driver) (d' : Driver)
    → (if wrong then malloc_error d else x) ≡ going d'
    → x ≡ going d'
unless_error true d x d' e = absurd (cc e)
unless_error false d x d' e = e

some_going :
    {B : Type 0} (x : Option ℕ) (k : ℕ → Step B) (b : B)
    → (elim x [ none ↦ crashed | some y ↦ k y ]) ≡ going b
    → (y : ℕ) × (x ≡ some y) × (k y ≡ going b)
some_going none k b e = absurd (cc e)
some_going (some y) k b e = (y, refl, e)

pub at_index-going :
    {B : Type 0} (xs : List ℕ) (i : ℕ) (k : ℕ → Step B) (b : B)
    → at_index xs i k ≡ going b
    → (x : ℕ) × (get_elem? xs i ≡ some x) × (k x ≡ going b)
at_index-going xs i k b e = some_going (get_elem? xs i) k b e
