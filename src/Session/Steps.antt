-- ===== src/Session/Steps.antt =====
-- buffet/manager.cc: every step of the manager tells its listener of what it changes in the
-- pairing.
use rockchip_android_system.Prelude.{
  ℕ, ◌≡◌, refl, true, false, List, [], ◌∷◌, arith, inl, Holds, Holds-map, if_cases, nat_eq,
  nat_eq_iff, ◌==◌,
}
use rockchip_android_system.NotificationListener
use rockchip_android_system.Manager.{
  Manager, on_config_changed, emit, post_reboot, reboot, on_pairing_start, on_pairing_end,
  on_trait_defs_changed, on_component_tree_changed, on_gcd_state_changed,
}
use rockchip_android_system.Manager.Clients.{
  insert_listener, erase_listener, connect, register_notification_listener, on_client_disconnected,
  on_notification_listener_destroyed,
}
use rockchip_android_system.Manager.Device.{create_device, on_reboot_device, reboot_device_now}
use rockchip_android_system.Manager.Shown.{
  notify-Kept, on_config_changed-Kept, connect-Kept, create_device-Kept,
}
use rockchip_android_system.Manager.System as Daemon_system
use rockchip_android_system.Session.Sent.{member, Tells, Kept-Tells, update_pairing-Tells}

insert-member :
    (n l : ℕ) (ls : List ℕ) → member n ls ≡ true → member n (insert_listener l ls) ≡ true
unfolding insert_listener
insert-member n l [] there = ground (arith, there)
insert-member n l (k ∷ ks) there = ground (arith, there, insert-member n l ks)

erase-member :
    (n l : ℕ) (ls : List ℕ)
    → nat_eq l n ≡ false
    → member n ls ≡ true
    → member n (erase_listener l ls) ≡ true
unfolding erase_listener
erase-member n l [] other there = there
erase-member n l (k ∷ ks) other there =
    ground (
      arith,
      other,
      there,
      nat_eq_iff l n,
      nat_eq_iff k n,
      nat_eq_iff k l,
      erase-member n l ks other,
    )

-- The step is not the death of the listener.
abbrev pub Stays : {P A : Type 0} → ℕ → Daemon_system.Event P A → Type 0
Stays n (Daemon_system.unlistens l) = nat_eq l n ≡ false
Stays n _ = Unit

pub step-Tells :
    {P A : Type 0} (n : ℕ) (e : Daemon_system.Event P A) (m : Manager)
    → m.log ≡ []
    → member n m.notification_listeners ≡ true
    → Stays n e
    → Holds (Tells n m) (Daemon_system.handle e m)
unfolding Daemon_system.handle on_client_disconnected register_notification_listener
    on_notification_listener_destroyed on_trait_defs_changed on_component_tree_changed
    on_gcd_state_changed on_pairing_start on_pairing_end on_reboot_device reboot_device_now
step-Tells n (Daemon_system.server_available d) m empty there stays =
    Holds-map (create_device d m) (λ m' k. Kept-Tells n m m' there k) (create_device-Kept d m)
step-Tells n (Daemon_system.connects c) m empty there stays =
    Holds-map (connect c m) (λ m' k. Kept-Tells n m m' there k) (connect-Kept c m)
step-Tells n (Daemon_system.disconnects c) m empty there stays =
    (inl refl, inl refl, inl refl, there)
step-Tells n (Daemon_system.listens l) m empty there stays =
    (inl refl, inl refl, inl refl, insert-member n l m.notification_listeners there)
step-Tells n (Daemon_system.unlistens l) m empty there stays =
    (inl refl, inl refl, inl refl, erase-member n l m.notification_listeners stays there)
step-Tells n (Daemon_system.config_changed s) m empty there stays =
    Kept-Tells n m (on_config_changed s m) there (on_config_changed-Kept s m)
step-Tells n (Daemon_system.pairing_starts session mode code) m empty there stays =
    update_pairing-Tells n session mode code m empty there
step-Tells n (Daemon_system.pairing_ends session) m empty there stays =
    if_cases (Tells n m) (m.pairing_session_id == session) _ _
      (λ same. update_pairing-Tells n "" "" "" m empty there) (λ other. Kept-Tells n m m there refl)
step-Tells n Daemon_system.traits_changed m empty there stays =
    Kept-Tells n m (on_trait_defs_changed m) there
      (notify-Kept (NotificationListener.traits ∷ []) m)
step-Tells n Daemon_system.components_changed m empty there stays =
    Kept-Tells n m (on_component_tree_changed m) there
      (notify-Kept (NotificationListener.components ∷ []) m)
step-Tells n (Daemon_system.gcd_state_changed state) m empty there stays =
    Kept-Tells n m (on_gcd_state_changed state m) there
      (notify-Kept (NotificationListener.state ∷ []) (record m { state = state }))
step-Tells n (Daemon_system.reboots completed) m empty there stays =
    if_cases (Tells n m) completed _ _ (λ done. Kept-Tells n m (emit post_reboot m) there refl)
      (λ off. Kept-Tells n m m there refl)
step-Tells n Daemon_system.reboots_now m empty there stays =
    Kept-Tells n m (emit reboot m) there refl
