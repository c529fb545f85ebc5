-- ===== src/Driver/Startup.antt =====
-- `configureReceiverAtStartup` and `handleConfigAck` of
-- ublox_driver/src/gnss_communication_wrapper/ublox_driver.cpp. What the reader thread, the clock and
-- a shutdown bring while it waits is a list.
pub mod Answers
use gnss_parser.Prelude.{
  ℕ, Bool, true, false, not, List, [], ◌∷◌, ◌++◌, ltb, ◌==◌, if◌then◌else◌, length, take,
}
use gnss_parser.Prelude.Text.{Bytes}
use gnss_parser.Ubx.Frame.{Ack, acked, nacked, other, check_ack}
use gnss_parser.Config.{RcvConfigRecord, Built, failed, exception, built, build_config_msg}

-- kReceiverConfigBufferCapacity
abbrev pub receiver_config_buffer_capacity : ℕ
receiver_config_buffer_capacity = 8192

-- `ack_flag_` is 1, -1 or 0, as the result of `check_ack`.
abbrev pub set_flag : Ack → Ack → Ack
set_flag acked flag = acked
set_flag nacked flag = nacked
set_flag other flag = flag

unfoldable pub handle_config_ack : Bytes → Ack → Ack
handle_config_ack data_bytes flag = set_flag (check_ack data_bytes (length data_bytes)) flag

-- What a round of the wait meets: a callback of the reader with data, the end of its 100 ms, a
-- shutdown of ROS, or the deadline.
pub data Wake : Type 0 where
  heard : Bytes → Wake
  nothing shut late : Wake

-- `while (ack_flag_ == false && rclcpp::ok() && now < deadline)`. The deadline comes at the end of the
-- list at the latest.
unfoldable pub wait_for_ack : List Wake → Ack → Ack
wait_for_ack ws acked = acked
wait_for_ack ws nacked = nacked
wait_for_ack [] other = other
wait_for_ack (heard bs ∷ ws) other = wait_for_ack ws (handle_config_ack bs other)
wait_for_ack (nothing ∷ ws) other = wait_for_ack ws other
wait_for_ack (shut ∷ ws) other = other
wait_for_ack (late ∷ ws) other = other

-- The callbacks between the loop and the end of `stopRead`.
unfoldable pub hear_all : List Bytes → Ack → Ack
hear_all [] flag = flag
hear_all (bs ∷ more) flag = hear_all more (handle_config_ack bs flag)

pub record Startup : Type 0 where
  pub port_open : Bool
  pub write_ok : Bool
  pub wakes : List Wake
  pub late_data : List Bytes

-- The result and what was written to the port, an exception, or bytes that were written past the end
-- of `config_buffer`, whose size the code does not test.
pub data Configured : Type 0 where
  done : Bool → List Bytes → Configured
  thrown overflow : Configured

abbrev pub is_acked : Ack → Bool
is_acked acked = true
is_acked nacked = false
is_acked other = false

-- From the write on.
abbrev pub write_config : Startup → Bytes → Configured
write_config s message =
    if s.write_ok
    then done (is_acked (hear_all s.late_data (wait_for_ack s.wakes other))) (message ∷ [])
    else done false []

-- `buff` holds the bytes that `build_config_msg` has written.
abbrev pub after_build : Startup → Built → Configured
after_build s failed = done false []
after_build s exception = thrown
after_build s (built buff msg_len) =
    if ltb receiver_config_buffer_capacity (length buff)
    then overflow
    else if msg_len == 0
    then done false []
    else write_config s (take msg_len buff)

abbrev configure : Startup → List RcvConfigRecord → Configured
configure s [] = done true []
configure s (r ∷ rs) = after_build s (build_config_msg (r ∷ rs))

unfoldable pub configure_receiver_at_startup : Startup → List RcvConfigRecord → Configured
configure_receiver_at_startup s receiver_configs =
    if not s.port_open then done false [] else configure s receiver_configs
