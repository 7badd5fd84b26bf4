-- ===== src/Programs/Viewer/Served.antt =====
-- From the program that sends to the clients of the program that serves.
use dora_foxglove.Prelude.{ℕ, ◌^◌, ◌<◌, ◌≡◌, refl, ◌∙◌, true, false, List, ◌++◌, ok, length}
use dora_foxglove.Server.Types.{Server, Env, Event}
use dora_foxglove.Server.Running.{bind_ok}
use dora_foxglove.Server.Publish.Delivery.{at_limit}
use dora_foxglove.Server.Publish.Broadcasting.{deliveries, IsProper, broadcast_reaches}
use dora_foxglove.Dora.LaserScan
use dora_foxglove.Dora.PointCloud
use dora_foxglove.Dora.Trajectory
use dora_foxglove.Dora.Transport.{
  send_laser_scan, send_point_cloud2, send_path, receive_laser_scan-send_laser_scan,
  receive_point_cloud2-send_point_cloud2, receive_path-send_path,
}
use dora_foxglove.Programs.Viewer.{
  Floats, Builder, Data, scan_message, cloud_message, path_message, receive_all, broadcast_round,
}

-- The members of the messages fit their fields on the wire.
pub record IsSendable (d : Data) : Type 0 where
  pub scan_valid : LaserScan.IsValid d.scan
  pub scan_fits : length (LaserScan.serialize d.scan) < 2 ^ 32
  pub cloud_valid : PointCloud.IsValid d.cloud
  pub cloud_fits : length (PointCloud.serialize d.cloud) < 2 ^ 32
  pub path_valid : Trajectory.IsValid d.path
  pub path_fits : length (Trajectory.serialize d.path) < 2 ^ 32

-- The three receivers of the server program get the scan, the cloud and the path that the sending
-- program has written to their connections, whatever follows there.
pub receive_all-send :
    (d : Data) (r1 r2 r3 : List ℕ)
    → IsSendable d
    → receive_all
        (send_laser_scan d.scan ++ r1)
        (send_point_cloud2 d.cloud ++ r2)
        (send_path d.path ++ r3)
      ≡ ok d
unfolding receive_all
receive_all-send d r1 r2 r3 h =
    rw
      (
        receive_laser_scan-send_laser_scan d.scan r1 h.scan_valid h.scan_fits,
        receive_point_cloud2-send_point_cloud2 d.cloud r2 h.cloud_valid h.cloud_fits,
        receive_path-send_path d.path r3 h.path_valid h.path_fits,
      )
      refl

-- No client's buffer reaches the limit with the payload.
abbrev pub StaysBelow : Env → List ℕ → Type 0
StaysBelow env payload = (hdl : ℕ) (log : List Event) → at_limit env hdl payload log ≡ false

-- What the sending program writes to the three connections is what the receivers of the server
-- program get, and a round of its loop then sends to each client, for each of the three channels
-- that it is subscribed to, the message made of that data, under the client's own id of the
-- subscription, and nothing else. The members fit their fields on the wire, every client can be
-- reached, its buffer stays below the limit with each of the messages, and each entry of _clients is found by its key.
pub data_served :
    (env : Env) (F : Floats) (B : Builder) (d : Data) (r1 r2 r3 : List ℕ) (k1 k2 k3 : ℕ)
    (n1 n2 n3 t1 t2 t3 : ℕ) (s : Server)
    → IsSendable d
    → ((hdl : ℕ) (log : List Event) → env.reachable hdl log ≡ true)
    → StaysBelow env (scan_message F B d.scan)
    → StaysBelow env (cloud_message F B d.cloud)
    → StaysBelow env (path_message F B d.path)
    → IsProper s.clients
    → (receive_all
          (send_laser_scan d.scan ++ r1)
          (send_point_cloud2 d.cloud ++ r2)
          (send_path d.path ++ r3)
        ≡ ok d)
      × (broadcast_round env F B (k1, k2, k3) (n1, n2, n3) (t1, t2, t3) d s ≡ (
        ok tt,
        record s {
          log = deliveries k3 t3 (path_message F B d.path) s.clients (
              deliveries k2 t2
                (cloud_message F B d.cloud)
                s.clients
                (deliveries k1 t1 (scan_message F B d.scan) s.clients s.log));
        },
      ))
unfolding broadcast_round
data_served env F B d r1 r2 r3 k1 k2 k3 n1 n2 n3 t1 t2 t3 s h reached b1 b2 b3 proper = (
  receive_all-send d r1 r2 r3 h,
  bind_ok s _ _ tt _ (broadcast_reaches env n1 k1 t1 (scan_message F B d.scan) reached b1 s proper)
      ∙ bind_ok _ _ _ tt _
          (broadcast_reaches env n2 k2 t2 (cloud_message F B d.cloud) reached b2 _ proper)
      ∙ broadcast_reaches env n3 k3 t3 (path_message F B d.path) reached b3 _ proper,
)
