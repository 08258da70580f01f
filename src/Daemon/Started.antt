-- ===== src/Daemon/Started.antt =====
-- buffet/main.cc and manager.cc: what runs after the daemon has registered, and after its shutdown.
use rockchip_android_system.Prelude.{
  ◌≡◌, ◌∙◌, refl, sym, ap, true, false, none, some, arith, Holds, Holds-map, is_some, not, if_cases,
  subst,
}
use rockchip_android_system.Manager.{Manager, Options}
use rockchip_android_system.Manager.Device.{
  Definitions, create_device, stop, start_http_server, restart_weave, start,
}
use rockchip_android_system.Manager.Made.{Made, make-Made}
use rockchip_android_system.Manager.System.{new_manager}
use rockchip_android_system.Daemon.{
  Library, Flags, new_daemon, main_options, register_dbus_objects_async, on_shutdown,
}

-- What runs: the parts of the manager, the web server where privet is on, and else the device.
record Started (o : Options) (m : Manager) : Type 0 where
  runs : m.running ≡ true
  serves : m.http_server ≡ not o.disable_privet
  has_device : is_some m.device ≡ o.disable_privet

Made-Started :
    (o : Options) (m n : Manager)
    → o.disable_privet ≡ true
    → m.running ≡ true
    → m.http_server ≡ false
    → Made m n
    → Started o n
Made-Started o m n off on closed made = record {
  runs = made.still_running ∙ on;
  serves = made.still_serving ∙ ground (arith, closed, off);
  has_device = ap is_some made.made_device ∙ sym off;
}

start-Started : (d : Definitions) (o : Options) → Holds (Started o) (start d (new_manager o))
unfolding start new_manager restart_weave stop start_http_server create_device
start-Started d o =
    if_cases (Holds (Started o)) o.disable_privet _ _
      (λ off.
        Holds-map {Q = Started o} _ (λ n made. Made-Started o _ n off refl refl made)
          (make-Made d _))
      (λ on.
        if_cases (Started o) o.enable_ping _ _
          (λ _. record { runs = refl; serves = ground (arith, on); has_device = sym on })
          (λ _. record { runs = refl; serves = ground (arith, on); has_device = sym on }))

-- When Manager::Start succeeds with the options of the flags, RegisterDBusObjectsAsync leaves a
-- daemon that is registered with that manager, which runs: with the web server and without a device
-- if the flags leave privet on, with a device and without the web server if they turn it off.
-- OnShutdown of that daemon succeeds, and leaves of the manager neither the running parts nor the
-- web server nor the device.
pub register_dbus_objects_async-on_shutdown :
    ⦃lib : Library⦄ (f : Flags) (defs : Definitions) (m : Manager)
    → start defs (new_manager (main_options f).manager_options) ≡ some m
    → let d = new_daemon (main_options f) in
      let d' = record d { registered = true; manager = some m } in
      (register_dbus_objects_async defs d ≡ some d')
      × (m.running ≡ true)
      × (m.http_server ≡ not f.disable_privet)
      × (is_some m.device ≡ f.disable_privet)
      × (on_shutdown d' ≡ some (record d' { manager = some (stop m) }))
      × ((stop m).running ≡ false)
      × ((stop m).http_server ≡ false)
      × ((stop m).device ≡ none)
unfolding main_options register_dbus_objects_async on_shutdown stop
register_dbus_objects_async-on_shutdown f defs m e =
    let o = (main_options f).manager_options in
    let s = subst (Holds (Started o)) e (start-Started defs o) in
    (
      ground (arith, e),
      s.runs,
      s.serves,
      s.has_device,
      refl,
      ground arith,
      ground arith,
      ground arith,
    )
