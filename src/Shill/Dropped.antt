-- ===== src/Shill/Dropped.antt =====
-- buffet/shill_client.cc: what becomes of a caller of Connect when shill goes away.
use rockchip_android_system.Prelude.{
  ℕ, ◌+◌, ◌≤◌, ◌≡◌, refl, subst, none, some, List, ◌∷◌, arith, Holds,
}
use rockchip_android_system.Shill.{ShillApi, ServiceProxy, release_proxy, Client, Answers}
use rockchip_android_system.Shill.Devices.{reset, on_shill_service_owner_change}
use rockchip_android_system.Shill.System.{Event, owner_changed, handle, run_events}
use rockchip_android_system.Shill.Replies.{asked_by, run_events-Fair}
use rockchip_android_system.Shill.Replies.DeviceHandlers.{answered}
use rockchip_android_system.Shill.Replies.ServiceHandlers.{Fair}

module _ ⦃api : ShillApi⦄ where
  lost_owner :
      (a : Answers) (s : ServiceProxy) (c : Client)
      → c.connecting_service ≡ some s
      → (handle (owner_changed a "") c ≡ some (reset c))
        × ((reset c).log ≡ release_proxy s ∷ c.log)
        × ((reset c).connecting_service ≡ none)
        × ((reset c).connect_done_callback ≡ none)
  unfolding handle on_shill_service_owner_change reset
  lost_owner a s c e = (refl, ground arith, ground arith, ground arith)

  -- When shill goes away while a callback waits, the attempt is reset and its proxy released, no
  -- callback waits any more, and none is called. Whatever events come after that, in whatever
  -- order: the callback has by then been called at most as often as before shill went away, and
  -- once more for each time that it has been handed to Connect since. If it has not been handed
  -- over again, it has not been called since.
  pub lost_owner-drops_callback :
      (a : Answers) (s : ServiceProxy) (k : ℕ) (es : List Event) (c d : Client)
      → c.connecting_service ≡ some s
      → c.connect_done_callback ≡ some k
      → run_events (owner_changed a "" ∷ es) c ≡ some d
      → ((l : Client) × (handle (owner_changed a "") c ≡ some l)
          × (l.log ≡ release_proxy s ∷ c.log)
          × (l.connecting_service ≡ none)
          × (l.connect_done_callback ≡ none))
        × (answered k d.log ≤ answered k c.log + asked_by k es)
  unfolding run_events
  lost_owner-drops_callback a s k es c d e f ran =
      let (handled, logged, idle, silent) = lost_owner a s c e in
      let later : run_events es (reset c) ≡ some d = ground (arith, ran, handled) in
      let g : Fair k (asked_by k es) (reset c) d =
        subst (Holds (Fair k (asked_by k es) (reset c))) later (run_events-Fair k es (reset c)) in
      ((reset c, handled, logged, idle, silent), ground (arith, g.no_more, logged, silent))
