-- ===== src/Ksim/Options/RoundTrip.antt =====
-- The command line of some options of tools/ksim/main.c is parsed back.
use libkatherine.Base.{◌+◌, ◌≡◌, arith}
use mathlib.Core.Path.{subst}
use libkatherine.Base.{List, [], ◌∷◌, length, Text, codes}
use libkatherine.Ksim.Options.Numbers.{written}
use libkatherine.Ksim.Options.CommandLine.{
  Parses, Parses-end, optional, IsSayable, pattern_words, log_words, flag_words, command_line,
}
use libkatherine.Ksim.Options.{DaemonOptions, runs, defaults, parse_options}
use libkatherine.Ksim.Options.Steps.{
  listen_step, ctl_port_step, data_port_step, client_data_port_step, drop_px_chunk_step,
  drop_crd_step, seed_step, rate_step, hits_per_frame_step, lost_per_frame_step,
  ack_latency_us_step, pattern_step, log_step, stray_step, quiet_step,
}

-- The options as far as the first six words of the command line set them, and the words after those.
abbrev base : DaemonOptions → DaemonOptions
base o = record defaults {
  listen_addr = o.listen_addr;
  ctl_port = o.ctl_port;
  data_port = o.data_port;
  client_data_port = o.client_data_port;
  drop_px_chunk = o.drop_px_chunk;
  drop_crd = o.drop_crd;
}

abbrev flags : DaemonOptions → List Text
flags o = flag_words o.stray_crd (codes "--stray-crd") (flag_words o.quiet (codes "--quiet") [])

abbrev generator_words : DaemonOptions → List Text → List Text
generator_words o rest = optional (codes "--seed") o.seed (
    optional (codes "--rate") o.rate (
      optional (codes "--hits-per-frame") o.hits_per_frame (
        optional (codes "--lost-per-frame") o.lost_per_frame
          (optional (codes "--ack-latency-us") o.ack_latency_us rest))))

abbrev generated : DaemonOptions → DaemonOptions
generated o = record (base o) {
  seed = o.seed;
  rate = o.rate;
  hits_per_frame = o.hits_per_frame;
  lost_per_frame = o.lost_per_frame;
  ack_latency_us = o.ack_latency_us;
}

last_words : DaemonOptions → List Text
last_words o = pattern_words o.pattern (log_words o.log_path (flags o))

last_words-Parses : (o : DaemonOptions) → IsSayable o → Parses (last_words o) (generated o) (runs o)
unfolding last_words
last_words-Parses o h =
    let r = runs o in
    let o₁ = record (generated o) { pattern = o.pattern } in
    let o₂ = record o₁ { log_path = o.log_path } in
    let o₃ = record o₂ { stray_crd = o.stray_crd } in
    let o₄ = record o₃ { quiet = o.quiet } in
    let w₃ = flag_words o.quiet (codes "--quiet") [] in
    let p₄ : Parses [] o₄ r =
      subst (λ name. Parses [] (record o { profile_name = name }) r) h.profile
        (Parses-end o h.profile) in
    let p₃ = quiet_step o₃ [] r o.quiet p₄ in
    let p₂ = stray_step o₂ w₃ r o.stray_crd p₃ in
    let p₁ = log_step o₁ (flags o) r o.log_path p₂ in
    pattern_step (generated o) (log_words o.log_path (flags o)) r o.pattern h.pattern_named p₁

generator_words-Parses :
    (o : DaemonOptions) (rest : List Text)
    → IsSayable o
    → Parses rest (generated o) (runs o)
    → Parses (generator_words o rest) (base o) (runs o)
generator_words-Parses o w₅ h p₅ =
    let r = runs o in
    let o₁ = record (base o) { seed = o.seed } in
    let o₂ = record o₁ { rate = o.rate } in
    let o₃ = record o₂ { hits_per_frame = o.hits_per_frame } in
    let o₄ = record o₃ { lost_per_frame = o.lost_per_frame } in
    let w₄ = optional (codes "--ack-latency-us") o.ack_latency_us w₅ in
    let w₃ = optional (codes "--lost-per-frame") o.lost_per_frame w₄ in
    let w₂ = optional (codes "--hits-per-frame") o.hits_per_frame w₃ in
    let w₁ = optional (codes "--rate") o.rate w₂ in
    let p₄ = ack_latency_us_step o₄ w₅ r o.ack_latency_us h.ack_latency_us_lt p₅ in
    let p₃ = lost_per_frame_step o₃ w₄ r o.lost_per_frame h.lost_per_frame_lt p₄ in
    let p₂ = hits_per_frame_step o₂ w₃ r o.hits_per_frame h.hits_per_frame_lt p₃ in
    let p₁ = rate_step o₁ w₂ r o.rate h.rate_lt p₂ in seed_step (base o) w₁ r o.seed h.seed_lt p₁

-- The daemon, started with the command line of some options that a command line can say, runs with
-- exactly these options: every address, port, number, pattern and path is read back, and what is not
-- set stays unset.
pub parse_options-command_line :
    (o : DaemonOptions) → IsSayable o → parse_options (command_line o) ≡ runs o
unfolding parse_options command_line last_words
parse_options-command_line o h =
    let r = runs o in
    let o₁ = record defaults { listen_addr = o.listen_addr } in
    let o₂ = record o₁ { ctl_port = o.ctl_port } in
    let o₃ = record o₂ { data_port = o.data_port } in
    let o₄ = record o₃ { client_data_port = o.client_data_port } in
    let o₅ = record o₄ { drop_px_chunk = o.drop_px_chunk } in
    let w₆ = generator_words o (last_words o) in
    let w₅ = codes "--drop-crd" ∷ written o.drop_crd ∷ w₆ in
    let w₄ = codes "--drop-px-chunk" ∷ written o.drop_px_chunk ∷ w₅ in
    let w₃ = codes "--client-data-port" ∷ written o.client_data_port ∷ w₄ in
    let w₂ = codes "--data-port" ∷ written o.data_port ∷ w₃ in
    let w₁ = codes "--ctl-port" ∷ written o.ctl_port ∷ w₂ in
    let p₆ = generator_words-Parses o (last_words o) h (last_words-Parses o h) in
    let p₅ = drop_crd_step o₅ w₆ r o.drop_crd h.drop_crd_lt p₆ in
    let p₄ = drop_px_chunk_step o₄ w₅ r o.drop_px_chunk h.drop_px_chunk_lt p₅ in
    let p₃ = client_data_port_step o₃ w₄ r o.client_data_port h.client_data_port_lt p₄ in
    let p₂ = data_port_step o₂ w₃ r o.data_port h.data_port_lt p₃ in
    let p₁ = ctl_port_step o₁ w₂ r o.ctl_port h.ctl_port_lt p₂ in
    listen_step defaults w₁ r o.listen_addr p₁ (length (codes "--listen" ∷ o.listen_addr ∷ w₁) + 1)
      (omega arith)
