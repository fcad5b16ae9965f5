-- ===== src/Examples/Stream.antt =====
-- The theorems on c/src/acquisition.c at concrete inputs.
use libkatherine.Base.{
  ℕ, ◌+◌, ◌*◌, ◌^◌, ◌%◌, ◌/◌, ◌≡◌, refl, arith, true, false, List, [], ◌∷◌, ◌++◌,
}
use libkatherine.Bitfield.{extract}
use libkatherine.Md
use libkatherine.Md.FToaTot
use libkatherine.Px.{Pixel}
use libkatherine.Acq.{Acq, State, Mode, no_info}
use libkatherine.Acq.Decode.{decode_loop, kind_of}
use libkatherine.Acq.Delivery.{
  received, hits, handle_all, IsBounded, received-handle_all, handle_all-IsBounded,
}
use libkatherine.Udp.{Udp}
use libkatherine.Acq.Read.{Round, acquisition_read}
use libkatherine.Acq.Outcome.{
  IsIdle, held_at_end, code_at_end, acquisition_read-held, acquisition_read-idle, idle_outcome,
}
use libkatherine.Acq.Words.{words_in, decode_loop_lem}
use libkatherine.Acq.Frame.{Reports, frame_reported, handle_timed, hit_total, lost_total}

abbrev pixel_map : ℕ → ℕ → Pixel
pixel_map off md = Pixel.f_toa_tot (FToaTot.pixel_map off md)

abbrev acq : Acq
acq = record {
  state = State.running;
  aborted = false;
  readout_mode = 0;
  acq_mode = Mode.mode_toa_tot;
  fast_vco_enabled = true;
  md_buffer = 1 ∷ 2 ∷ 3 ∷ 4 ∷ 5 ∷ 0x40 ∷ 6 ∷ 7 ∷ 8 ∷ 9 ∷ 10 ∷ 0x41 ∷ 99 ∷ [];
  md_buffer_size = 34;
  decode_data = true;
  pixel_buffer = [];
  pixel_buffer_size = 48;
  pixel_buffer_valid = 0;
  pixel_buffer_max_valid = 2;
  requested_frames = 1;
  requested_frame_duration = 0;
  completed_frames = 0;
  dropped_measurement_data = 0;
  acq_start_time = 0;
  report_timeout = 0;
  fail_timeout = 0;
  handlers = record {
    pixels_received = true;
    frame_started = true;
    frame_ended = true;
    data_received = false;
  };
  current_frame_info = no_info;
  last_toa_offset = 0;
  frame_active = false;
  calls = [];
}

-- Data by their headers.
abbrev datum : ℕ → ℕ → ℕ
datum header payload = header * 2 ^ 44 + payload

abbrev body : List ℕ
body = datum 5 1 ∷ datum 4 100 ∷ datum 4 200 ∷ datum 0xD 3 ∷ datum 4 300 ∷ []

acq-IsBounded : IsBounded acq
acq-IsBounded = record {
  has_room = omega arith;
  fits_word = omega arith;
  within = omega arith;
  counted = refl;
}

decode_loop_lem_example :
    decode_loop pixel_map 14 50 0 13 acq
    ≡ handle_all pixel_map 50 (words_in acq.md_buffer 0 (13 / 6)) acq
decode_loop_lem_example = decode_loop_lem pixel_map 50 13 acq

received-handle_all_example :
    (received (handle_all pixel_map 50 body acq) ≡ received acq ++ hits pixel_map 0 body)
    × IsBounded (handle_all pixel_map 50 body acq)
received-handle_all_example = received-handle_all pixel_map 50 body acq acq-IsBounded refl

handle_all-IsBounded_example : IsBounded (handle_all pixel_map 50 body acq)
handle_all-IsBounded_example = handle_all-IsBounded pixel_map 50 body acq-IsBounded

-- The same data, each at its own reading of the clock.
abbrev timed : List (ℕ × ℕ)
timed =
    (51, datum 5 1)
    ∷ (52, datum 4 100)
    ∷ (53, datum 4 200)
    ∷ (54, datum 0xD 3)
    ∷ (55, datum 4 300)
    ∷ []

frame_reported_example :
    Reports
      (handle_timed pixel_map ((50, datum 7 0) ∷ timed ++ ((57, datum 0xC 3) ∷ [])) acq)
      true
      0
      ((0 + hit_total timed) % 2 ^ 64)
      (lost_total timed % 2 ^ 64)
      (extract (datum 0xC 3) Md.frame_finished_n_sent)
      50
      57
      State.succeeded
unfolding kind_of extract
frame_reported_example =
    frame_reported pixel_map 50 57 (datum 7 0) (datum 0xC 3) timed acq acq-IsBounded refl
      (tt, (tt, (tt, (tt, (tt, tt))))) refl

abbrev idle : Udp
idle = record {
  addr_remote = record { host = 7; port = 1555 };
  remote_pinned = true;
  inbox = [];
  outcomes = [];
  locks = [];
  sent = [];
  held = 2;
}

idle-IsIdle : IsIdle idle
idle-IsIdle = record { pinned = refl; silent = refl; free = refl }

abbrev rounds : List Round
rounds = record { now = 9; later = 9; raised = false } ∷ []

abbrev limited : Acq
limited = record acq { fail_timeout = 2000 }

acquisition_read-held_example :
    held_at_end idle.held (acquisition_read pixel_map 24 1 9 rounds idle limited) ≡ idle.held
acquisition_read-held_example = acquisition_read-held pixel_map 24 1 9 rounds idle limited refl

-- The flag comes up in the third round, long before the timeout.
abbrev waiting : List Round
waiting =
    record { now = 1; later = 1; raised = false }
    ∷ record { now = 1; later = 2; raised = false }
    ∷ record { now = 2; later = 2; raised = true }
    ∷ rounds

acquisition_read-idle_example :
    code_at_end (acquisition_read pixel_map 24 1 9 waiting idle limited)
    ≡ idle_outcome 2000 (1 * 0 + 2000 * 1000000) 0 false waiting
acquisition_read-idle_example =
    acquisition_read-idle pixel_map 24 1 9 waiting idle limited idle-IsIdle refl
