-- ===== src/Ksim/Options/CommandLine.antt =====
-- Command lines of tools/ksim/main.c that are parsed back.
use mathlib.Core.Path.{subst}
use libkatherine.Base.{ℕ, zero, suc, ◌^◌, ◌<◌, ◌≡◌, ◌≢◌, refl, arith, sym}
use libkatherine.Base.{List, [], ◌∷◌, length, Bool, if◌then◌else◌}
use libkatherine.Base.{Option, none, some, Text, codes, same_text}
use libkatherine.Emu.{Pattern}
use libkatherine.Ksim.Args.{option, args_next}
use libkatherine.Ksim.Options.Numbers.{written, parse_u64-written}
use libkatherine.Ksim.Options.{
  DaemonOptions, Parsed, exits, runs, opts, exit_failure, accepted, default_profile, take_option,
  check_profile, parse_loop, parse_u64, parse_u32, parse_port,
}

-- With fuel for the elements that are left, the loop comes to `r`.
abbrev pub Parses : List Text → DaemonOptions → Parsed → Type 0
Parses rest o r = (fuel : ℕ) → length rest < fuel → parse_loop fuel rest o ≡ r

-- One option is read off an element and the next.
abbrev pub Reads : Text → ℕ → Type 0
Reads name id =
    (value : Text) (rest : List Text)
    → args_next opts (name ∷ value ∷ rest) ≡ (option id (some value), rest)

pub valued_step :
    (name : Text) (id : ℕ) (value : Text) (rest : List Text) (o o' : DaemonOptions) (r : Parsed)
    → Reads name id
    → take_option id (some value) o ≡ runs o'
    → Parses rest o' r
    → Parses (name ∷ value ∷ rest) o r
unfolding parse_loop
valued_step name id value rest o o' r reads takes p zero h = absurd (omega arith)
valued_step name id value rest o o' r reads takes p (suc fuel) h =
    ground (arith, reads value rest, takes, p fuel (omega arith))

abbrev pub optional : Text → Option ℕ → List Text → List Text
optional name none rest = rest
optional name (some n) rest = name ∷ written n ∷ rest

pub optional_step :
    (name : Text) (id : ℕ) (value : Option ℕ) (rest : List Text) (set : Option ℕ → DaemonOptions)
    (r : Parsed)
    → Reads name id
    → ((n : ℕ)
        → value ≡ some n
        → take_option id (some (written n)) (set none) ≡ runs (set (some n)))
    → Parses rest (set value) r
    → Parses (optional name value rest) (set none) r
optional_step name id none rest set r reads takes p = p
optional_step name id (some n) rest set r reads takes p =
    valued_step name id (written n) rest (set none) (set (some n)) r reads (takes n refl) p

pub Parses-end : (o : DaemonOptions) → o.profile_name ≡ default_profile → Parses [] o (runs o)
unfolding parse_loop args_next check_profile
Parses-end o e zero h = absurd (omega arith)
Parses-end o e (suc fuel) h =
    subst (λ name. (if same_text name default_profile then runs o else exits exit_failure) ≡ runs o)
      (sym e) refl

pub flag_step :
    (name : Text) (id : ℕ) (rest : List Text) (o o' : DaemonOptions) (r : Parsed)
    → ((rest : List Text) → args_next opts (name ∷ rest) ≡ (option id none, rest))
    → take_option id none o ≡ runs o'
    → Parses rest o' r
    → Parses (name ∷ rest) o r
unfolding parse_loop
flag_step name id rest o o' r reads takes p zero h = absurd (omega arith)
flag_step name id rest o o' r reads takes p (suc fuel) h =
    ground (arith, reads rest, takes, p fuel (omega arith))

pub accepted_u64 :
    (n : ℕ) (f : ℕ → DaemonOptions)
    → n < 2 ^ 64
    → accepted (parse_u64 (some (written n))) f ≡ runs (f n)
accepted_u64 n f h = ground (arith, (parse_u64-written n (omega arith)).0)

pub accepted_u32 :
    (n : ℕ) (f : ℕ → DaemonOptions)
    → n < 2 ^ 32
    → accepted (parse_u32 (some (written n))) f ≡ runs (f n)
accepted_u32 n f h = ground (arith, (parse_u64-written n (omega arith)).1)

pub accepted_port :
    (n : ℕ) (f : ℕ → DaemonOptions)
    → n < 2 ^ 16
    → accepted (parse_port (some (written n))) f ≡ runs (f n)
accepted_port n f h = ground (arith, (parse_u64-written n (omega arith)).2)

-- A value that may be missing is below a bound.
abbrev pub Fits : ℕ → Option ℕ → Type 0
Fits bound value = (n : ℕ) → value ≡ some n → n < bound

-- Options that a command line can say: the profile that there is, numbers that fit their types, and
-- a pattern that has a name.
pub record IsSayable (o : DaemonOptions) : Type 0 where
  pub profile : o.profile_name ≡ default_profile
  pub ctl_port_lt : o.ctl_port < 2 ^ 16
  pub data_port_lt : o.data_port < 2 ^ 16
  pub client_data_port_lt : o.client_data_port < 2 ^ 16
  pub seed_lt : Fits (2 ^ 64) o.seed
  pub rate_lt : Fits (2 ^ 64) o.rate
  pub hits_per_frame_lt : Fits (2 ^ 32) o.hits_per_frame
  pub lost_per_frame_lt : Fits (2 ^ 32) o.lost_per_frame
  pub pattern_named : o.pattern ≢ some Pattern.other
  pub ack_latency_us_lt : Fits (2 ^ 64) o.ack_latency_us
  pub drop_px_chunk_lt : o.drop_px_chunk < 2 ^ 32
  pub drop_crd_lt : o.drop_crd < 2 ^ 32

abbrev pub pattern_name : Pattern → Text
pattern_name Pattern.uniform = codes "uniform"
pattern_name Pattern.hot_column = codes "hot-column"
pattern_name Pattern.gradient = codes "gradient"
pattern_name Pattern.other = []

abbrev pub pattern_words : Option Pattern → List Text → List Text
pattern_words none rest = rest
pattern_words (some p) rest = codes "--pattern" ∷ pattern_name p ∷ rest

abbrev pub log_words : Option Text → List Text → List Text
log_words none rest = rest
log_words (some path) rest = codes "--log" ∷ path ∷ rest

abbrev pub flag_words : Bool → Text → List Text → List Text
flag_words on name rest = if on then name ∷ rest else rest

-- The command line of some options, every one of them in its long form.
unfoldable pub command_line : DaemonOptions → List Text
command_line o =
    codes "--listen"
    ∷ o.listen_addr
    ∷ codes "--ctl-port"
    ∷ written o.ctl_port
    ∷ codes "--data-port"
    ∷ written o.data_port
    ∷ codes "--client-data-port"
    ∷ written o.client_data_port
    ∷ codes "--drop-px-chunk"
    ∷ written o.drop_px_chunk
    ∷ codes "--drop-crd"
    ∷ written o.drop_crd
    ∷ optional (codes "--seed") o.seed (
        optional (codes "--rate") o.rate (
          optional (codes "--hits-per-frame") o.hits_per_frame (
            optional (codes "--lost-per-frame") o.lost_per_frame (
              optional (codes "--ack-latency-us") o.ack_latency_us (
                pattern_words o.pattern (
                  log_words o.log_path (
                    flag_words o.stray_crd (codes "--stray-crd")
                      (flag_words o.quiet (codes "--quiet") []))))))))
