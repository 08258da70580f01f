-- ===== src/Manager/Made.antt =====
-- buffet/manager.cc: what CreateDevice leaves when it makes a device.
use rockchip_android_system.Prelude.{[], some, suc, ◌≡◌, ◌∙◌, Holds, option_cases}
use rockchip_android_system.Manager.{Manager, emit, make_device, add_reboot_handler, add_callbacks}
use rockchip_android_system.Manager.Clients.{create_services_for_clients}
use rockchip_android_system.Manager.Device.{Definitions, load_all, make}
use rockchip_android_system.Manager.Served.{load_all-Same}
use rockchip_android_system.Manager.Served.Clients.{serve_all-ServedAll}
use rockchip_android_system.Manager.Served.Steps.{Holds-bind}

-- The manager has the next device, and what runs is what ran.
pub record Made (m m' : Manager) : Type 0 where
  pub made_device : m'.device ≡ some m.next_device
  pub counted_device : m'.next_device ≡ suc m.next_device
  pub still_running : m'.running ≡ m.running
  pub still_serving : m'.http_server ≡ m.http_server

pub make-Made : (d : Definitions) (m : Manager) → Holds (Made m) (make d m)
unfolding make create_services_for_clients
make-Made d m =
    let created =
      emit (make_device m.next_device)
        (record m { device = some m.next_device; next_device = suc m.next_device }) in
    Holds-bind (Made m) (load_all d created) _ (load_all-Same 0 d created) λ n s.
      let n' = emit add_reboot_handler (emit add_callbacks n) in
      option_cases (Holds (Made m)) n'.device _ _ (λ gone. tt)
        (λ k there.
          let t = serve_all-ServedAll 0 k n'.pending_clients (record n' { pending_clients = [] }) in
          record {
            made_device = t.same_device ∙ s.same_device;
            counted_device = t.same_next_device ∙ s.same_next_device;
            still_running = t.same_running ∙ s.same_running;
            still_serving = t.same_http_server ∙ s.same_http_server;
          })
