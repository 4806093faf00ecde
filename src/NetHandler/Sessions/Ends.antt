-- ===== src/NetHandler/Sessions/Ends.antt =====
-- Which clients are marked as connected, and what the end of a connection leaves behind.
use c_runtime.Prelude.{◌≡◌, refl, arith}
use c_runtime.Prelude.{true, false, ◌&&◌, ◌||◌}
use c_runtime.RuntimeUtil.Types.{
  RobotDescField, run_mode, dawn, shepherd, gamepad, keyboard, start_pos, hypothermia, poison_ivy,
  dehydration, idle, disconnected,
}
use c_runtime.Shm.Types.{Shm}
use c_runtime.Shm.Inputs.{robot_desc_write}
use c_runtime.NetHandler.TcpConn.{same_field, tcp_conn_cleanup}
use c_runtime.NetHandler.Sessions.{is_client}

-- The end of a connection leaves the robot idle and the client disconnected, and the inputs too
-- if it is Dawn, so that no input is read or written until Dawn sends one again; no other field
-- changes, nor do the devices. The client is one of the two.
pub record IsCleaned (client : RobotDescField) (m m' : Shm) : Type 0 where
  pub stopped : m'.fields run_mode ≡ idle
  pub left : m'.fields client ≡ disconnected
  pub inputs :
      same_field client dawn ≡ true
      → (m'.fields gamepad ≡ disconnected) × (m'.fields keyboard ≡ disconnected)
  pub same_dev : m'.dev ≡ m.dev
  pub same_fields :
      (f : RobotDescField)
      → same_field f run_mode ≡ false
      → same_field f client ≡ false
      → (same_field client dawn && (same_field f gamepad || same_field f keyboard)) ≡ false
      → m'.fields f ≡ m.fields f

pub tcp_conn_cleanup-IsCleaned :
    (client : RobotDescField) (m : Shm)
    → is_client client ≡ true
    → IsCleaned client m (tcp_conn_cleanup client m)
unfolding tcp_conn_cleanup robot_desc_write
tcp_conn_cleanup-IsCleaned dawn m h = record {
  stopped = refl;
  left = refl;
  inputs = λ e. (refl, refl);
  same_dev = refl;
  same_fields = λ f a b c. ground (arith, a, b, c);
}
tcp_conn_cleanup-IsCleaned shepherd m h = record {
  stopped = refl;
  left = refl;
  inputs = λ e. absurd (ground (arith, e));
  same_dev = refl;
  same_fields = λ f a b c. ground (arith, a, b, c);
}
tcp_conn_cleanup-IsCleaned run_mode m h = absurd (ground (arith, h))
tcp_conn_cleanup-IsCleaned gamepad m h = absurd (ground (arith, h))
tcp_conn_cleanup-IsCleaned keyboard m h = absurd (ground (arith, h))
tcp_conn_cleanup-IsCleaned start_pos m h = absurd (ground (arith, h))
tcp_conn_cleanup-IsCleaned hypothermia m h = absurd (ground (arith, h))
tcp_conn_cleanup-IsCleaned poison_ivy m h = absurd (ground (arith, h))
tcp_conn_cleanup-IsCleaned dehydration m h = absurd (ground (arith, h))
