-- ===== src/Ksim/Options.antt =====
-- tools/ksim/main.c: the command line of the daemon. Messages are left out; the exit codes are kept.
pub mod Numbers
pub mod CommandLine
pub mod Steps
pub mod RoundTrip
pub mod Rounds
use libkatherine.Base.{ℕ, zero, suc, ◌+◌, ◌-◌, ◌*◌, ◌%◌, ◌^◌, ◌==◌, ltb, leb, if◌then◌else◌}
use libkatherine.Base.{Bool, true, false, not, ◌&&◌, ◌||◌, List, [], ◌∷◌, length, u64}
use libkatherine.Base.{Option, none, some, Text, codes, same_text}
use libkatherine.Emu.{Pattern}
use libkatherine.Ksim.Args.{Opt, Next, finished, question, option, args_next}

-- The codes of the options; those with a short name have its character.
abbrev pub opt_listen : ℕ
opt_listen = 256

abbrev pub opt_ctl_port : ℕ
opt_ctl_port = 257

abbrev pub opt_data_port : ℕ
opt_data_port = 258

abbrev pub opt_client_data_port : ℕ
opt_client_data_port = 259

abbrev pub opt_profile : ℕ
opt_profile = 260

abbrev pub opt_seed : ℕ
opt_seed = 261

abbrev pub opt_rate : ℕ
opt_rate = 262

abbrev pub opt_hits_per_frame : ℕ
opt_hits_per_frame = 263

abbrev pub opt_lost_per_frame : ℕ
opt_lost_per_frame = 264

abbrev pub opt_pattern : ℕ
opt_pattern = 265

abbrev pub opt_ack_latency_us : ℕ
opt_ack_latency_us = 266

abbrev pub opt_drop_px_chunk : ℕ
opt_drop_px_chunk = 267

abbrev pub opt_drop_crd : ℕ
opt_drop_crd = 268

abbrev pub opt_stray_crd : ℕ
opt_stray_crd = 269

abbrev pub opt_log : ℕ
opt_log = 270

-- An option without a short name that takes a value.
abbrev valued : Text → ℕ → Opt
valued name id = record { name = name; short_name = 0; has_arg = true; id = id }

-- `OPTS`
abbrev pub opts : List Opt
opts =
    valued (codes "listen") opt_listen
    ∷ valued (codes "ctl-port") opt_ctl_port
    ∷ valued (codes "data-port") opt_data_port
    ∷ valued (codes "client-data-port") opt_client_data_port
    ∷ valued (codes "profile") opt_profile
    ∷ valued (codes "seed") opt_seed
    ∷ valued (codes "rate") opt_rate
    ∷ valued (codes "hits-per-frame") opt_hits_per_frame
    ∷ valued (codes "lost-per-frame") opt_lost_per_frame
    ∷ valued (codes "pattern") opt_pattern
    ∷ valued (codes "ack-latency-us") opt_ack_latency_us
    ∷ valued (codes "drop-px-chunk") opt_drop_px_chunk
    ∷ valued (codes "drop-crd") opt_drop_crd
    ∷ record { name = codes "stray-crd"; short_name = 0; has_arg = false; id = opt_stray_crd }
    ∷ valued (codes "log") opt_log
    ∷ record { name = codes "quiet"; short_name = b'q'; has_arg = false; id = b'q' }
    ∷ record { name = codes "help"; short_name = b'h'; has_arg = false; id = b'h' }
    ∷ []

-- `daemon_options_t`: a value with its flag that it has been set is an option.
pub record DaemonOptions : Type 0 where
  pub listen_addr : Text
  pub ctl_port : ℕ
  pub data_port : ℕ
  pub client_data_port : ℕ
  pub profile_name : Text
  pub seed : Option ℕ
  pub rate : Option ℕ
  pub hits_per_frame : Option ℕ
  pub lost_per_frame : Option ℕ
  pub pattern : Option Pattern
  pub ack_latency_us : Option ℕ
  pub drop_px_chunk : ℕ
  pub drop_crd : ℕ
  pub stray_crd : Bool
  pub log_path : Option Text
  pub quiet : Bool

abbrev pub default_profile : Text
default_profile = codes "gen1-tpx3"

abbrev pub defaults : DaemonOptions
defaults = record {
  listen_addr = codes "0.0.0.0";
  ctl_port = 1555;
  data_port = 1556;
  client_data_port = 1556;
  profile_name = default_profile;
  seed = none;
  rate = none;
  hits_per_frame = none;
  lost_per_frame = none;
  pattern = none;
  ack_latency_us = none;
  drop_px_chunk = 0;
  drop_crd = 0;
  stray_crd = false;
  log_path = none;
  quiet = false;
}

-- isspace() of the C locale.
abbrev is_space : ℕ → Bool
is_space c = c == 32 || leb 9 c && leb c 13

abbrev is_digit : ℕ → Bool
is_digit c = leb b'0' c && leb c b'9'

skip_space : Text → Text
skip_space [] = []
skip_space (c ∷ s) = let rest = skip_space s in if is_space c then rest else c ∷ s

-- A run of digits, read onto `n`, and what follows it.
scan : ℕ → Text → ℕ × Text
scan n [] = (n, [])
scan n (c ∷ s) = elim (is_digit c) [ true ↦ scan (10 * n + (c - b'0')) s | false ↦ (n, c ∷ s) ]

-- The number of a run of digits that may be negated; there is none without a digit, or past 64 bits.
magnitude : Bool → Text → Option (ℕ × Text)
magnitude negative [] = none
magnitude negative (c ∷ s) =
    let (n, rest) = scan 0 (c ∷ s) in
    if not (is_digit c)
    then none
    else if leb (2 ^ 64) n
    then none
    else some (if negative then (2 ^ 64 - n) % 2 ^ 64 else n, rest)

signed : Text → Option (ℕ × Text)
signed [] = none
signed (c ∷ s) =
    if c == b'-'
    then magnitude true s
    else if c == b'+'
    then magnitude false s
    else magnitude false (c ∷ s)

-- strtoull() in base 10, with what it leaves; none where it fails or converts nothing.
unfoldable pub strtoull : Text → Option (ℕ × Text)
unfolding skip_space scan magnitude signed
strtoull s = signed (skip_space s)

abbrev whole : Option (ℕ × Text) → Option ℕ
whole none = none
whole (some (n, [])) = some n
whole (some (n, c ∷ rest)) = none

-- `parse_u64`
unfoldable pub parse_u64 : Option Text → Option ℕ
unfolding strtoull
parse_u64 none = none
parse_u64 (some s) = whole (strtoull s)

abbrev at_most : ℕ → Option ℕ → Option ℕ
at_most top none = none
at_most top (some n) = if ltb top n then none else some n

-- `parse_u32`
unfoldable pub parse_u32 : Option Text → Option ℕ
unfolding parse_u64
parse_u32 s = at_most (2 ^ 32 - 1) (parse_u64 s)

-- `parse_port`
unfoldable pub parse_port : Option Text → Option ℕ
unfolding parse_u64
parse_port s = at_most (2 ^ 16 - 1) (parse_u64 s)

-- `parse_pattern`; every option that takes a value has one.
unfoldable pub parse_pattern : Option Text → Option Pattern
parse_pattern none = none
parse_pattern (some s) =
    if same_text s (codes "uniform")
    then some Pattern.uniform
    else if same_text s (codes "hot-column")
    then some Pattern.hot_column
    else if same_text s (codes "gradient")
    then some Pattern.gradient
    else none

-- What `parse_options` comes to: the exit code, or the options.
pub data Parsed : Type 0 where
  exits : ℕ → Parsed
  runs : DaemonOptions → Parsed

abbrev pub exit_success : ℕ
exit_success = 0

abbrev pub exit_failure : ℕ
exit_failure = 1

-- No exit code of the program: what a loop comes to that is out of fuel.
abbrev pub unfinished : ℕ
unfinished = 2

-- A value that is parsed, or the exit.
abbrev pub accepted : {A : Type 0} → Option A → (A → DaemonOptions) → Parsed
accepted none f = exits exit_failure
accepted (some a) f = runs (f a)

abbrev text_of : Option Text → Text
text_of none = []
text_of (some s) = s

-- The `switch` of `parse_options`.
unfoldable pub take_option : ℕ → Option Text → DaemonOptions → Parsed
unfolding parse_u64 parse_u32 parse_port parse_pattern
take_option id value o =
    if id == opt_listen
    then runs (record o { listen_addr = text_of value })
    else if id == opt_ctl_port
    then accepted (parse_port value) (λ n. record o { ctl_port = n })
    else if id == opt_data_port
    then accepted (parse_port value) (λ n. record o { data_port = n })
    else if id == opt_client_data_port
    then accepted (parse_port value) (λ n. record o { client_data_port = n })
    else if id == opt_profile
    then runs (record o { profile_name = text_of value })
    else if id == opt_seed
    then accepted (parse_u64 value) (λ n. record o { seed = some n })
    else if id == opt_rate
    then accepted (parse_u64 value) (λ n. record o { rate = some n })
    else if id == opt_hits_per_frame
    then accepted (parse_u32 value) (λ n. record o { hits_per_frame = some n })
    else if id == opt_lost_per_frame
    then accepted (parse_u32 value) (λ n. record o { lost_per_frame = some n })
    else if id == opt_pattern
    then accepted (parse_pattern value) (λ p. record o { pattern = some p })
    else if id == opt_ack_latency_us
    then accepted (parse_u64 value) (λ n. record o { ack_latency_us = some n })
    else if id == opt_drop_px_chunk
    then accepted (parse_u32 value) (λ n. record o { drop_px_chunk = n })
    else if id == opt_drop_crd
    then accepted (parse_u32 value) (λ n. record o { drop_crd = n })
    else if id == opt_stray_crd
    then runs (record o { stray_crd = true })
    else if id == opt_log
    then runs (record o { log_path = value })
    else if id == b'q'
    then runs (record o { quiet = true })
    else if id == b'h'
    then exits exit_success
    else exits exit_failure

-- The test of the profile, after the loop.
unfoldable pub check_profile : DaemonOptions → Parsed
check_profile o = if same_text o.profile_name default_profile then runs o else exits exit_failure

-- The loop of `parse_options`, on fuel.
unfoldable pub parse_loop : ℕ → List Text → DaemonOptions → Parsed
unfolding args_next take_option check_profile
parse_loop zero rest o = exits unfinished
parse_loop (suc fuel) rest o =
    let (next, rest') = args_next opts rest in
    elim next [
      | finished ↦ check_profile o
      | question ↦ exits exit_failure
      | option id value ↦ elim (take_option id value o) [
        | exits code ↦ exits code
        | runs o' ↦ parse_loop fuel rest' o'
      ]
    ]

-- `parse_options`, of the elements behind the name of the program.
unfoldable pub parse_options : List Text → Parsed
unfolding parse_loop
parse_options argv = parse_loop (length argv + 1) argv defaults
