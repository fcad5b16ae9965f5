-- ===== src/Ksim/Options/Rounds.antt =====
-- The rounds of the option loop of tools/ksim/main.c.
use libkatherine.Base.{ℕ, zero, suc, ◌+◌, ◌<◌, ◌≤◌, ◌≡◌, refl, arith}
use libkatherine.Base.{List, [], ◌∷◌, length, Option, Text}
use libkatherine.Ksim.Args.{Opt, Next, finished, question, option, args_next}
use libkatherine.Ksim.Options.{
  DaemonOptions, Parsed, exits, runs, opts, defaults, take_option, parse_loop, parse_options,
  check_profile, exit_failure,
}

-- The option loop on a command line, from some options to its result, without any bound on its
-- rounds: it ends where the elements are finished, at a question or at an option that exits, and
-- else goes on behind an option that it has taken.
pub data Course : List Text → DaemonOptions → Parsed → Type 0 where
  ends :
      (rest : List Text) (o : DaemonOptions)
      → (args_next opts rest).0 ≡ finished
      → Course rest o (check_profile o)
  asks :
      (rest : List Text) (o : DaemonOptions)
      → (args_next opts rest).0 ≡ question
      → Course rest o (exits exit_failure)
  stops :
      (rest : List Text) (o : DaemonOptions) (id : ℕ) (value : Option Text) (code : ℕ)
      → (args_next opts rest).0 ≡ option id value
      → take_option id value o ≡ exits code
      → Course rest o (exits code)
  goes :
      (rest : List Text) (o o' : DaemonOptions) (id : ℕ) (value : Option Text) (r : Parsed)
      → (args_next opts rest).0 ≡ option id value
      → take_option id value o ≡ runs o'
      → Course (args_next opts rest).1 o' r
      → Course rest o r

-- A round takes an element at least.
args_next_shorter :
    (opts : List Opt) (tok : Text) (rest : List Text)
    → length (args_next opts (tok ∷ rest)).1 ≤ length rest
unfolding args_next
args_next_shorter opts tok [] = ground arith
args_next_shorter opts tok (value ∷ rest) = ground arith

-- What a round makes of what it has read, with what the further rounds would do.
abbrev on : Next → DaemonOptions → (DaemonOptions → Parsed) → Parsed
on next o more = elim next [
  | finished ↦ check_profile o
  | question ↦ exits exit_failure
  | option id value ↦ elim (take_option id value o) [ exits code ↦ exits code | runs o' ↦ more o' ]
]

-- An option that has been read and what the `switch` makes of it.
taken-Course :
    (rest : List Text) (o : DaemonOptions) (id : ℕ) (value : Option Text)
    (more : DaemonOptions → Parsed) (p : Parsed)
    → (args_next opts rest).0 ≡ option id value
    → take_option id value o ≡ p
    → ((o' : DaemonOptions) → Course (args_next opts rest).1 o' (more o'))
    → Course rest o (elim p [ exits code ↦ exits code | runs o' ↦ more o' ])
taken-Course rest o id value more (exits code) e t later = Course.stops rest o id value code e t
taken-Course rest o id value more (runs o') e t later =
    Course.goes rest o o' id value (more o') e t (later o')

round-Course :
    (rest : List Text) (o : DaemonOptions) (more : DaemonOptions → Parsed) (next : Next)
    → (args_next opts rest).0 ≡ next
    → ((o' : DaemonOptions) → Course (args_next opts rest).1 o' (more o'))
    → Course rest o (on next o more)
round-Course rest o more finished e later = Course.ends rest o e
round-Course rest o more question e later = Course.asks rest o e
round-Course rest o more (option id value) e later =
    taken-Course rest o id value more (take_option id value o) e refl later

loop-Course :
    (fuel : ℕ) (rest : List Text) (o : DaemonOptions)
    → length rest < fuel
    → Course rest o (parse_loop fuel rest o)
unfolding parse_loop args_next
loop-Course zero rest o h = absurd (omega arith)
loop-Course (suc fuel) [] o h = Course.ends [] o refl
loop-Course (suc fuel) (tok ∷ rest) o h =
    let rest' = (args_next opts (tok ∷ rest)).1 in
    let short = args_next_shorter opts tok rest in
    round-Course (tok ∷ rest) o (parse_loop fuel rest') _ refl
      (λ o'. loop-Course fuel rest' o' (omega (arith, short)))

-- The option loop ends by its own tests, whatever the command line: the result of `parse_options`
-- is reached by finitely many rounds, of which the last finds no more elements, a question or an
-- option that exits.
pub parse_options-Course : (argv : List Text) → Course argv defaults (parse_options argv)
unfolding parse_options
parse_options-Course argv = loop-Course (length argv + 1) argv defaults (omega arith)
