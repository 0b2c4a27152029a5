-- ===== src/Devices.antt =====
-- internal/devices/controller.go: the queues between the service broker and the send-anything
-- server.
use aion_core.Prelude.{String, Bool, true, false, Option, List, [], ◌∷◌, ◌++◌}
use aion_core.Prelude.Int.{ℤ, to_int32}
use aion_core.Kanban.Types.{StatusKanban, SendKanban}

-- `recv_ch` and `send_ch` list what was put on the channels, oldest first. `closed` is the end of
-- the channel of received kanbans.
pub record DeviceController : Type 0 where
  pub recv_ch : List SendKanban
  pub send_ch : List SendKanban
  pub closed : Bool

abbrev pub new_device_controller : DeviceController
new_device_controller = record { recv_ch = []; send_ch = []; closed = false }

unfoldable pub to_send : String → Option StatusKanban → String → ℤ → String → SendKanban
unfolding to_int32
to_send device_name k next_service number addr = record {
  device_name = device_name;
  device_addr = addr;
  next_service = next_service;
  next_number = to_int32 number;
  after_kanban = k;
}

unfoldable pub send_file_to_device :
    String → Option StatusKanban → String → ℤ → String → DeviceController → DeviceController
unfolding to_send
send_file_to_device device_name k next_service number addr c = record c {
  send_ch = c.send_ch ++ (to_send device_name k next_service number addr ∷ []);
}

-- A round of `connectToServer`: the context is done, the dial or the call fails, or a connection
-- gives kanbans until its end, which starts the next round.
pub data Attempt : Type 0 where
  done : Attempt
  dial_failed call_failed : String → Attempt
  connected : List SendKanban → Attempt

unfoldable pub connect_to_server : List Attempt → DeviceController → DeviceController
connect_to_server [] c = c
connect_to_server (done ∷ l) c = record c { closed = true }
connect_to_server (dial_failed e ∷ l) c = connect_to_server l c
connect_to_server (call_failed e ∷ l) c = connect_to_server l c
connect_to_server (connected received ∷ l) c =
    connect_to_server l (record c { recv_ch = c.recv_ch ++ received })

-- The sender of a connection takes what waits on `send_ch`; a kanban whose send fails is logged and
-- dropped. `send` is the stream in the state `T`.
unfoldable pub send_waiting :
    {T : Type 0} → (SendKanban → T → T × Option String) → List SendKanban → T → T
send_waiting send [] t = t
send_waiting send (data_ ∷ l) t = send_waiting send l (send data_ t).0
