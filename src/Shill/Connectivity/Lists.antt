-- ===== src/Shill/Connectivity/Lists.antt =====
-- buffet/shill_client.cc: how the writes to `devices_` bear on the best state of a device.
use rockchip_android_system.Prelude.{
  ◌⊎◌, ◌≤◌, ◌≡◌, refl, inl, inr, none, some, List, [], ◌∷◌, String, arith, find, insert, update,
  erase, Option-cases,
}
use rockchip_android_system.Shill.{
  ShillApi, better, DeviceState, NetworkState, offline, most_connected,
}
use rockchip_android_system.Shill.Devices.{new_device, erase_all}
use rockchip_android_system.Shill.Signals.{mark_selected}

-- A device that has selected no service is offline.
abbrev pub Settled : List (String × DeviceState) → Type 0
Settled [] = Unit {0}
Settled ((p, d) ∷ ds) = (d.selected_service ≡ none → d.service_state ≡ offline) × Settled ds

pub insert-Settled :
    (p : String) (ds : List (String × DeviceState)) → Settled ds → Settled (insert p new_device ds)
unfolding insert
insert-Settled p [] h = ground arith
insert-Settled p ((q, d) ∷ ds) h = ground (arith, insert-Settled p ds h.1)

pub update-Settled :
    (p : String) (d : DeviceState) (ds : List (String × DeviceState))
    → (d.selected_service ≡ none → d.service_state ≡ offline)
    → Settled ds
    → Settled (update p d ds)
unfolding update
update-Settled p d [] k h = tt
update-Settled p d ((q, e) ∷ ds) k h = ground (arith, update-Settled p d ds k h.1)

pub erase-Settled :
    (p : String) (ds : List (String × DeviceState)) → Settled ds → Settled (erase p ds)
unfolding erase
erase-Settled p [] h = tt
erase-Settled p ((q, e) ∷ ds) h = ground (arith, erase-Settled p ds h.1)

pub erase_all-Settled :
    (ps : List String) (ds : List (String × DeviceState)) → Settled ds → Settled (erase_all ps ds)
unfolding erase_all
erase_all-Settled [] ds h = h
erase_all-Settled (p ∷ ps) ds h = erase_all-Settled ps (erase p ds) (erase-Settled p ds h)

pub mark_selected-Settled :
    (p : String) (n : NetworkState) (ds es : List (String × DeviceState))
    → mark_selected p n ds ≡ some es
    → Settled ds
    → Settled es
unfolding mark_selected
mark_selected-Settled p n [] es e h = cc
mark_selected-Settled p n ((q, d) ∷ ds) es e h = elim (Option-cases (mark_selected p n ds)) [
  | inl gone ↦ ground arith
  | inr (fs, there) ↦ ground (arith, mark_selected-Settled p n ds fs there h.1)
]

pub find-Settled :
    (p : String) (d : DeviceState) (ds : List (String × DeviceState))
    → find p ds ≡ some d
    → Settled ds
    → d.selected_service ≡ none
    → d.service_state ≡ offline
unfolding find
find-Settled p d [] e h k = cc
find-Settled p d ((q, b) ∷ ds) e h k = ground (arith, find-Settled p d ds)

module _ ⦃api : ShillApi⦄ where
  -- No device is better connected than `n`.
  abbrev pub Bounded : NetworkState → List (String × DeviceState) → Type 0
  Bounded n [] = Unit {0}
  Bounded n ((p, d) ∷ ds) = (api.state_value d.service_state ≤ api.state_value n) × Bounded n ds

  -- Some device is in the state `n`.
  abbrev pub Attained : NetworkState → List (String × DeviceState) → Type 0
  Attained n [] = ⊥
  Attained n ((p, d) ∷ ds) = (d.service_state ≡ n) ⊎ Attained n ds

  better-le :
      (best n : NetworkState)
      → (api.state_value best ≤ api.state_value (better best n))
        × (api.state_value n ≤ api.state_value (better best n))
  unfolding better
  better-le best n = ground arith

  pub most_connected-Bounded :
      (best : NetworkState) (ds : List (String × DeviceState))
      → (api.state_value best ≤ api.state_value (most_connected best ds))
        × Bounded (most_connected best ds) ds
  unfolding most_connected
  most_connected-Bounded best [] = (omega arith, tt)
  most_connected-Bounded best ((p, d) ∷ ds) =
      let r = most_connected-Bounded (better best d.service_state) ds in
      let b = better-le best d.service_state in
      (omega (arith, r.0, b.0), (omega (arith, r.0, b.1), r.1))

  pub most_connected-Attained :
      (best : NetworkState) (ds : List (String × DeviceState))
      → (most_connected best ds ≡ best) ⊎ Attained (most_connected best ds) ds
  unfolding most_connected better
  most_connected-Attained best [] = inl refl
  most_connected-Attained best ((p, d) ∷ ds) =
      ground (arith, most_connected-Attained (better best d.service_state) ds)

  -- A change of the state of no device changes nothing.
  pub most_connected-update_same :
      (best : NetworkState) (p : String) (d e : DeviceState) (ds : List (String × DeviceState))
      → find p ds ≡ some e
      → d.service_state ≡ e.service_state
      → most_connected best (update p d ds) ≡ most_connected best ds
  unfolding most_connected find update
  most_connected-update_same best p d e [] h k = cc
  most_connected-update_same best p d e ((q, b) ∷ ds) h k =
      ground (arith, most_connected-update_same (better best b.service_state) p d e ds)

module _ ⦃api : ShillApi⦄
    (lowest : (n : NetworkState) → api.state_value offline ≤ api.state_value n) where
  pub better-offline : (best : NetworkState) → better best offline ≡ best
  unfolding better
  better-offline best = ground (arith, lowest best)

  pub most_connected-insert_offline :
      (best : NetworkState) (p : String) (ds : List (String × DeviceState))
      → find p ds ≡ none
      → most_connected best (insert p new_device ds) ≡ most_connected best ds
  unfolding most_connected find insert
  most_connected-insert_offline best p [] e = better-offline best
  most_connected-insert_offline best p ((q, d) ∷ ds) e =
      ground (
        arith,
        better-offline best,
        most_connected-insert_offline (better best d.service_state) p ds,
      )
