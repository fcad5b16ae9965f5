-- ===== src/Ksim/Options/Steps.antt =====
-- The options of tools/ksim/main.c, one by one: what each of them adds to a parsed command line.
use libkatherine.Base.{ℕ, ◌^◌, ◌<◌, ◌≡◌, ◌≢◌, refl}
use libkatherine.Base.{List, [], ◌∷◌, Bool, true, false, Option, none, some, Text, codes}
use libkatherine.Emu.{Pattern}
use libkatherine.Ksim.Args.{args_next, option}
use libkatherine.Ksim.Options.Numbers.{written}
use libkatherine.Ksim.Options.CommandLine.{
  Parses, optional, valued_step, optional_step, flag_step, accepted_u64, accepted_u32,
  accepted_port, Fits, pattern_words, log_words, flag_words,
}
use libkatherine.Ksim.Options.{
  DaemonOptions, Parsed, opts, take_option, parse_pattern, parse_u64, parse_u32, parse_port,
  opt_listen, opt_ctl_port, opt_data_port, opt_client_data_port, opt_seed, opt_rate,
  opt_hits_per_frame, opt_lost_per_frame, opt_pattern, opt_ack_latency_us, opt_drop_px_chunk,
  opt_drop_crd, opt_stray_crd, opt_log,
}

stray_reads :
    (rest : List Text)
    → args_next opts (codes "--stray-crd" ∷ rest) ≡ (option opt_stray_crd none, rest)
unfolding args_next
stray_reads [] = refl
stray_reads (value ∷ rest) = refl

quiet_reads :
    (rest : List Text) → args_next opts (codes "--quiet" ∷ rest) ≡ (option b'q' none, rest)
unfolding args_next
quiet_reads [] = refl
quiet_reads (value ∷ rest) = refl

module _ (o : DaemonOptions) (rest : List Text) (r : Parsed) where
  pub listen_step :
      (addr : Text)
      → Parses rest (record o { listen_addr = addr }) r
      → Parses (codes "--listen" ∷ addr ∷ rest) o r
  unfolding args_next take_option
  listen_step addr p =
      valued_step (codes "--listen") opt_listen addr rest o (record o { listen_addr = addr }) r
        (λ value rest. refl) refl p

  pub ctl_port_step :
      (n : ℕ)
      → n < 2 ^ 16
      → Parses rest (record o { ctl_port = n }) r
      → Parses (codes "--ctl-port" ∷ written n ∷ rest) o r
  unfolding args_next take_option parse_u64 parse_u32 parse_port
  ctl_port_step n h p =
      valued_step (codes "--ctl-port") opt_ctl_port (written n) rest o (record o { ctl_port = n }) r
        (λ value rest. refl) (accepted_port n (λ n. record o { ctl_port = n }) h) p

  pub data_port_step :
      (n : ℕ)
      → n < 2 ^ 16
      → Parses rest (record o { data_port = n }) r
      → Parses (codes "--data-port" ∷ written n ∷ rest) o r
  unfolding args_next take_option parse_u64 parse_u32 parse_port
  data_port_step n h p =
      valued_step (codes "--data-port") opt_data_port (written n) rest o
        (record o { data_port = n }) r (λ value rest. refl)
        (accepted_port n (λ n. record o { data_port = n }) h) p

  pub client_data_port_step :
      (n : ℕ)
      → n < 2 ^ 16
      → Parses rest (record o { client_data_port = n }) r
      → Parses (codes "--client-data-port" ∷ written n ∷ rest) o r
  unfolding args_next take_option parse_u64 parse_u32 parse_port
  client_data_port_step n h p =
      valued_step (codes "--client-data-port") opt_client_data_port (written n) rest o
        (record o { client_data_port = n }) r (λ value rest. refl)
        (accepted_port n (λ n. record o { client_data_port = n }) h) p

  pub drop_px_chunk_step :
      (n : ℕ)
      → n < 2 ^ 32
      → Parses rest (record o { drop_px_chunk = n }) r
      → Parses (codes "--drop-px-chunk" ∷ written n ∷ rest) o r
  unfolding args_next take_option parse_u64 parse_u32 parse_port
  drop_px_chunk_step n h p =
      valued_step (codes "--drop-px-chunk") opt_drop_px_chunk (written n) rest o
        (record o { drop_px_chunk = n }) r (λ value rest. refl)
        (accepted_u32 n (λ n. record o { drop_px_chunk = n }) h) p

  pub drop_crd_step :
      (n : ℕ)
      → n < 2 ^ 32
      → Parses rest (record o { drop_crd = n }) r
      → Parses (codes "--drop-crd" ∷ written n ∷ rest) o r
  unfolding args_next take_option parse_u64 parse_u32 parse_port
  drop_crd_step n h p =
      valued_step (codes "--drop-crd") opt_drop_crd (written n) rest o (record o { drop_crd = n }) r
        (λ value rest. refl) (accepted_u32 n (λ n. record o { drop_crd = n }) h) p

  pub seed_step :
      (value : Option ℕ)
      → Fits (2 ^ 64) value
      → Parses rest (record o { seed = value }) r
      → Parses (optional (codes "--seed") value rest) (record o { seed = none }) r
  unfolding args_next take_option parse_u64 parse_u32 parse_port
  seed_step value h p =
      optional_step (codes "--seed") opt_seed value rest (λ v. record o { seed = v }) r
        (λ value rest. refl) (λ n e. accepted_u64 n (λ n. record o { seed = some n }) (h n e)) p

  pub rate_step :
      (value : Option ℕ)
      → Fits (2 ^ 64) value
      → Parses rest (record o { rate = value }) r
      → Parses (optional (codes "--rate") value rest) (record o { rate = none }) r
  unfolding args_next take_option parse_u64 parse_u32 parse_port
  rate_step value h p =
      optional_step (codes "--rate") opt_rate value rest (λ v. record o { rate = v }) r
        (λ value rest. refl) (λ n e. accepted_u64 n (λ n. record o { rate = some n }) (h n e)) p

  pub hits_per_frame_step :
      (value : Option ℕ)
      → Fits (2 ^ 32) value
      → Parses rest (record o { hits_per_frame = value }) r
      → Parses
          (optional (codes "--hits-per-frame") value rest)
          (record o { hits_per_frame = none })
          r
  unfolding args_next take_option parse_u64 parse_u32 parse_port
  hits_per_frame_step value h p =
      optional_step (codes "--hits-per-frame") opt_hits_per_frame value rest
        (λ v. record o { hits_per_frame = v }) r (λ value rest. refl)
        (λ n e. accepted_u32 n (λ n. record o { hits_per_frame = some n }) (h n e)) p

  pub lost_per_frame_step :
      (value : Option ℕ)
      → Fits (2 ^ 32) value
      → Parses rest (record o { lost_per_frame = value }) r
      → Parses
          (optional (codes "--lost-per-frame") value rest)
          (record o { lost_per_frame = none })
          r
  unfolding args_next take_option parse_u64 parse_u32 parse_port
  lost_per_frame_step value h p =
      optional_step (codes "--lost-per-frame") opt_lost_per_frame value rest
        (λ v. record o { lost_per_frame = v }) r (λ value rest. refl)
        (λ n e. accepted_u32 n (λ n. record o { lost_per_frame = some n }) (h n e)) p

  pub ack_latency_us_step :
      (value : Option ℕ)
      → Fits (2 ^ 64) value
      → Parses rest (record o { ack_latency_us = value }) r
      → Parses
          (optional (codes "--ack-latency-us") value rest)
          (record o { ack_latency_us = none })
          r
  unfolding args_next take_option parse_u64 parse_u32 parse_port
  ack_latency_us_step value h p =
      optional_step (codes "--ack-latency-us") opt_ack_latency_us value rest
        (λ v. record o { ack_latency_us = v }) r (λ value rest. refl)
        (λ n e. accepted_u64 n (λ n. record o { ack_latency_us = some n }) (h n e)) p

  pub pattern_step :
      (value : Option Pattern)
      → value ≢ some Pattern.other
      → Parses rest (record o { pattern = value }) r
      → Parses (pattern_words value rest) (record o { pattern = none }) r
  unfolding args_next take_option parse_pattern
  pattern_step none h p = p
  pattern_step (some Pattern.uniform) h p =
      valued_step (codes "--pattern") opt_pattern (codes "uniform") rest
        (record o { pattern = none }) (record o { pattern = some Pattern.uniform }) r
        (λ value rest. refl) refl p
  pattern_step (some Pattern.hot_column) h p =
      valued_step (codes "--pattern") opt_pattern (codes "hot-column") rest
        (record o { pattern = none }) (record o { pattern = some Pattern.hot_column }) r
        (λ value rest. refl) refl p
  pattern_step (some Pattern.gradient) h p =
      valued_step (codes "--pattern") opt_pattern (codes "gradient") rest
        (record o { pattern = none }) (record o { pattern = some Pattern.gradient }) r
        (λ value rest. refl) refl p
  pattern_step (some Pattern.other) h p = absurd (h refl)

  pub log_step :
      (value : Option Text)
      → Parses rest (record o { log_path = value }) r
      → Parses (log_words value rest) (record o { log_path = none }) r
  unfolding args_next take_option
  log_step none p = p
  log_step (some path) p =
      valued_step (codes "--log") opt_log path rest (record o { log_path = none })
        (record o { log_path = some path }) r (λ value rest. refl) refl p

  pub stray_step :
      (on : Bool)
      → Parses rest (record o { stray_crd = on }) r
      → Parses (flag_words on (codes "--stray-crd") rest) (record o { stray_crd = false }) r
  unfolding args_next take_option
  stray_step false p = p
  stray_step true p =
      flag_step (codes "--stray-crd") opt_stray_crd rest (record o { stray_crd = false })
        (record o { stray_crd = true }) r stray_reads refl p

  pub quiet_step :
      (on : Bool)
      → Parses rest (record o { quiet = on }) r
      → Parses (flag_words on (codes "--quiet") rest) (record o { quiet = false }) r
  unfolding args_next take_option
  quiet_step false p = p
  quiet_step true p =
      flag_step (codes "--quiet") b'q' rest (record o { quiet = false }) (record o { quiet = true })
        r quiet_reads refl p
