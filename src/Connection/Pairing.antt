-- ===== src/Connection/Pairing.antt =====
-- libweaved/service.cc: what the client is told of a pairing.
use rockchip_android_system.Prelude.{
  ℕ, ◌≡◌, ◌||◌, Bool, true, false, Option, none, some, List, [], ◌∷◌, ◌++◌, String, arith,
  Option-cases, inl, inr, if◌then◌else◌, nat_eq,
}
use mathlib.Core.List.{append-nil}
use rockchip_android_system.NotificationListener.{pairing_session_id, pairing_mode, pairing_code}
use rockchip_android_system.Connection.{
  PairingInfo, ServiceImpl, Effect, run_pairing_callback, World,
}
use rockchip_android_system.Connection.Calls.{pairing, note, note_all, on_notification}

-- The last text that was answered for a number, else the old one.
abbrev pub latest : ℕ → List (ℕ × Option String) → String → String
latest n [] old = old
latest n ((number, none) ∷ rest) old = latest n rest old
latest n ((number, some text) ∷ rest) old = latest n rest (if nat_eq number n then text else old)

-- A number of the pairing has been answered.
abbrev pub answered : List (ℕ × Option String) → Bool
answered [] = false
answered ((number, none) ∷ rest) = answered rest
answered ((number, some text) ∷ rest) =
    nat_eq number pairing_session_id
    || (nat_eq number pairing_mode || (nat_eq number pairing_code || answered rest))

-- The pairing with each text as it was answered last.
abbrev pub updated : List (ℕ × Option String) → PairingInfo → PairingInfo
updated answers i = record {
  session_id = latest pairing_session_id answers i.session_id;
  pairing_mode = latest pairing_mode answers i.pairing_mode;
  pairing_code = latest pairing_code answers i.pairing_code;
}

note_all_lem :
    (answers : List (ℕ × Option String)) (i : PairingInfo) (changed : Bool)
    → note_all answers (i, changed) ≡ (updated answers i, changed || answered answers)
unfolding note_all note
note_all_lem [] i changed = ground arith
note_all_lem ((number, none) ∷ rest) i changed = note_all_lem rest i changed
note_all_lem ((number, some text) ∷ rest) i changed = ground (
  arith,
  note_all_lem rest (record i { session_id = text }) true,
  note_all_lem rest (record i { pairing_mode = text }) true,
  note_all_lem rest (record i { pairing_code = text }) true,
  note_all_lem rest i changed,
)

-- What the callback is run with: the pairing if all its texts are there, else nothing.
abbrev pub told : Option ℕ → PairingInfo → List Effect
told none i = []
told (some callback) i = run_pairing_callback callback (if pairing i then some i else none) ∷ []

-- A notification leaves each text of the pairing as the daemon has answered it last. If the daemon
-- has answered at all for one of the three, the pairing callback, if there is one, is run once,
-- with the new pairing if all three texts are there and with nothing otherwise; else nothing is
-- run.
pub on_notification_lem :
    (answers : List (ℕ × Option String)) (s : ServiceImpl) (w : World)
    → let w' = on_notification answers s w in
      (w'.service ≡ some (record s { pairing_info = updated answers s.pairing_info }))
      × (w'.effects
          ≡ w.effects
            ++ (if answered answers
                then told s.pairing_info_callback (updated answers s.pairing_info)
                else []))
unfolding on_notification
on_notification_lem answers s w = elim (Option-cases s.pairing_info_callback) [
  | inl gone ↦ ground (arith, note_all_lem answers s.pairing_info false, append-nil w.effects, gone)
  | inr (callback, there) ↦
      ground (arith, note_all_lem answers s.pairing_info false, append-nil w.effects, there)
]
