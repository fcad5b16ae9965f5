-- ===== src/Status.antt =====
-- c/src/status.c and c/include/katherine/status.h: the queries of the control socket, each a locked
-- exchange of one command and one response. A float is its bit pattern. The chip identifier is the
-- string that sprintf() makes, without its terminator.
pub mod Answers
pub mod Chip
use libkatherine.Base.{ℕ, zero, suc, ◌+◌, ◌-◌, ◌*◌, ◌/◌, ◌%◌, ◌==◌, ltb, if◌then◌else◌, bit_and}
use libkatherine.Base.{◌>>>◌, Bool, List, [], ◌∷◌, ◌++◌, take, get_or, le_word, eagain, u32}
use libkatherine.Bitfield.{extract}
use libkatherine.Udp.{Udp, Result, err, ok}
use libkatherine.Session.{Query, Session, ◌>>=◌, ◌>>◌, pure, fail, locked, wait_ack_crd}
use libkatherine.Command.{cmd6, cmd6_i64}
use libkatherine.Command.CmdType
use libkatherine.Crd

-- `katherine_readout_status_t`
pub record ReadoutStatus : Type 0 where
  pub hw_type : ℕ
  pub hw_revision : ℕ
  pub hw_serial_number : ℕ
  pub fw_version : ℕ

-- `katherine_comm_status_t`
pub record CommStatus : Type 0 where
  pub comm_lines_mask : ℕ
  pub data_rate : ℕ
  pub chip_detected : Bool

-- What the fields of a response say.
unfoldable pub readout_status : List ℕ → ReadoutStatus
readout_status crd =
    let word = le_word crd in
    record {
      hw_type = extract word Crd.hw_type;
      hw_revision = extract word Crd.hw_revision;
      hw_serial_number = extract word Crd.hw_serial_number;
      fw_version = extract word Crd.fw_version;
    }

unfoldable pub comm_status : List ℕ → CommStatus
comm_status crd =
    let word = le_word crd in
    record {
      comm_lines_mask = extract word Crd.comm_lines_mask;
      data_rate = u32 (5 * extract word Crd.total_data_rate);
      chip_detected = ltb 0 (extract word Crd.chip_detected_flag);
    }

-- `katherine_get_readout_status`
unfoldable pub get_readout_status : Query ReadoutStatus
get_readout_status =
    locked (do cmd6 CmdType.get_readout_status; crd ← wait_ack_crd; pure (readout_status crd))

-- `katherine_get_comm_status`
unfoldable pub get_comm_status : Query CommStatus
get_comm_status =
    locked (do cmd6 CmdType.get_communication_status; crd ← wait_ack_crd; pure (comm_status crd))

-- `%d` of a non-negative number, in front of what follows; one digit for each unit of fuel.
unfoldable pub decimal : ℕ → ℕ → List ℕ → List ℕ
decimal zero n rest = rest
decimal (suc fuel) n rest =
    let digit = 48 + n % 10 in
    if ltb n 10 then digit ∷ rest else decimal fuel (n / 10) (digit ∷ rest)

-- The characters of `"%c%d-W000%d"`: a letter, the column, and the wafer. Twelve bits have at most four
-- digits.
unfoldable pub chip_string : ℕ → List ℕ
unfolding decimal
chip_string chip_id =
    let y = bit_and (chip_id >>> 4) 0xF in
    let w = bit_and (chip_id >>> 8) 0xFFF in
    (64 + bit_and chip_id 0xF) ∷ decimal 2 y (45 ∷ 87 ∷ 48 ∷ 48 ∷ 48 ∷ decimal 4 w [])

-- An identifier of zero is this command itself, echoed.
unfoldable pub chip_id_of : ℕ → Query (List ℕ)
chip_id_of chip_id = if chip_id == 0 then fail eagain else pure (chip_string chip_id)

-- `katherine_get_chip_id`
unfoldable pub get_chip_id : Query (List ℕ)
get_chip_id =
    locked (do cmd6 CmdType.echo_chip_id; crd ← wait_ack_crd; chip_id_of (le_word (take 4 crd)))

-- `katherine_get_readout_temperature`
unfoldable pub get_readout_temperature : Query ℕ
get_readout_temperature =
    locked
      (do cmd6 CmdType.get_hw_readout_temperature; crd ← wait_ack_crd; pure (le_word (take 4 crd)))

-- `katherine_get_sensor_temperature`
unfoldable pub get_sensor_temperature : Query ℕ
get_sensor_temperature =
    locked (do cmd6 CmdType.get_sensor_temperature; crd ← wait_ack_crd; pure (le_word (take 4 crd)))

-- `katherine_get_adc_voltage`
unfoldable pub get_adc_voltage : ℕ → Query ℕ
get_adc_voltage channel_id = locked (do
  cmd6_i64 CmdType.get_adc_voltage channel_id
  crd ← wait_ack_crd
  pure (le_word (take 4 crd)))

-- The waits of the digital test, while one fails and attempts are left, which are at least one where
-- the code waits.
unfoldable pub test_loop : ℕ → Query (List ℕ)
test_loop zero u = (err eagain, u)
test_loop (suc attempts) u =
    let (r, u') = wait_ack_crd u in
    elim r [
      | ok crd ↦ (ok crd, u')
      | err e ↦ elim attempts [ zero ↦ (err e, u') | suc k ↦ test_loop attempts u' ]
    ]

-- `katherine_perform_digital_test`
unfoldable pub perform_digital_test : Session
unfolding test_loop
perform_digital_test = locked (do
  cmd6 CmdType.digital_test
  crd ← test_loop 100
  if get_or crd 0 0 == 64 then pure tt else fail 1)
