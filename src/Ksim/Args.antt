-- ===== src/Ksim/Args.antt =====
-- tools/ksim/args.h: the parser of command line options. Its state, the index of the next element of
-- argv, is the list of the elements from that index on. The diagnostics that it prints are left out,
-- and with them the name of the program.
use libkatherine.Base.{ℕ, ◌==◌, if◌then◌else◌, Bool, not, ◌&&◌}
use libkatherine.Base.{List, [], ◌∷◌, Option, none, some, Text, same_text}

-- `ksim_opt_t`; the short name is 0 if there is none.
pub record Opt : Type 0 where
  pub name : Text
  pub short_name : ℕ
  pub has_arg : Bool
  pub id : ℕ

-- What `ksim_args_next` returns: -1, '?', or an option with its value, if it takes one.
pub data Next : Type 0 where
  finished question : Next
  option : ℕ → Option Text → Next

-- `ksim_args_find_long`
unfoldable pub find_long : List Opt → Text → Option Opt
find_long [] name = none
find_long (o ∷ opts) name =
    let rest = find_long opts name in if same_text o.name name then some o else rest

-- `ksim_args_find_short`
unfoldable pub find_short : List Opt → ℕ → Option Opt
find_short [] c = none
find_short (o ∷ opts) c =
    let rest = find_short opts c in
    if not (o.short_name == 0) && o.short_name == c then some o else rest

-- The text in front of the first `=`, and the one behind it.
unfoldable pub split_eq : Text → Text × Option Text
split_eq [] = ([], none)
split_eq (c ∷ s) =
    let (name, value) = split_eq s in if c == b'=' then ([], some s) else (c ∷ name, value)

-- The forms of an element.
pub data Form : Type 0 where
  positional end_mark unknown : Form
  long : Text → Form
  short : ℕ → Form

abbrev long_form : Text → Form
long_form [] = end_mark
long_form (c ∷ s) = long (c ∷ s)

abbrev short_form : ℕ → Text → Form
short_form d [] = short d
short_form d (c ∷ s) = unknown

unfoldable pub form : Text → Form
form [] = positional
form (c ∷ []) = positional
form (c ∷ d ∷ s) =
    if not (c == b'-') then positional else if d == b'-' then long_form s else short_form d s

-- The value in the next element.
abbrev next_value : Opt → List Text → Next × List Text
next_value opt [] = (if opt.has_arg then question else option opt.id none, [])
next_value opt (value ∷ rest) =
    if opt.has_arg then (option opt.id (some value), rest) else (option opt.id none, value ∷ rest)

abbrev long_value : Opt → Option Text → List Text → Next × List Text
long_value opt none rest = next_value opt rest
long_value opt (some value) rest =
    (if opt.has_arg then option opt.id (some value) else question, rest)

-- `ksim_args_next`
unfoldable pub args_next : List Opt → List Text → Next × List Text
unfolding find_long find_short split_eq form
args_next opts [] = (finished, [])
args_next opts (tok ∷ rest) = elim (form tok) [
  | positional ↦ (question, rest)
  | end_mark ↦ (finished, rest)
  | unknown ↦ (question, rest)
  | long text ↦
      let (name, value) = split_eq text in
      elim (find_long opts name) [ none ↦ (question, rest) | some opt ↦ long_value opt value rest ]
  | short c ↦ elim (find_short opts c) [ none ↦ (question, rest) | some opt ↦ next_value opt rest ]
]
