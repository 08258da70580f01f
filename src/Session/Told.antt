-- ===== src/Session/Told.antt =====
-- buffet/manager.cc and libweaved/service.cc: what a notification of the manager leads to in a
-- client.
use mathlib.Core.Option
use mathlib.Core.List.{append-nil}
use rockchip_android_system.Prelude.{
  ℕ, ◌≡◌, refl, sym, ap, ◌∙◌, false, Option, none, some, List, [], ◌∷◌, ◌++◌, String, arith,
  Bool-cases, Option-cases, inl, inr, nat_eq, nat_eq_iff, map, if◌then◌else◌,
}
use rockchip_android_system.Strings.{BinderStrings}
use rockchip_android_system.Connection.{
  Effect, PairingInfo, ServiceImpl, World, run_pairing_callback, lock, run_connection_callback,
  run_command_callback, register_for_death_notifications, unregister_for_death_notifications,
  connect_client, register_notification_listener, register_command_handler, abort_command,
}
use rockchip_android_system.Connection.Calls.{
  pairing, on_notification, notify_service_manager_change,
}
use rockchip_android_system.Connection.Pairing.{latest, answered, updated, told}
use rockchip_android_system.Manager.{Manager}
use rockchip_android_system.ServiceManager.{IWeaveServiceManager}
use rockchip_android_system.Session.Watched.{answer, getter, reading}
use rockchip_android_system.Session.Sent.{member, InStep}

-- The pairing that the manager shows, and what a callback is run with for a pairing.
abbrev pub manager_pairing : Manager → PairingInfo
manager_pairing m = record {
  session_id = m.pairing_session_id;
  pairing_mode = m.pairing_mode;
  pairing_code = m.pairing_code;
}

abbrev pub presented : PairingInfo → Option PairingInfo
presented i = if pairing i then some i else none

-- What the pairing callback was run with last, at first `old`.
abbrev pub last_told : Option PairingInfo → List Effect → Option PairingInfo
last_told old [] = old
last_told old (run_pairing_callback callback i ∷ es) = last_told i es
last_told old (_ ∷ es) = last_told old es

last_told-append :
    (old : Option PairingInfo) (es fs : List Effect)
    → last_told old (es ++ fs) ≡ last_told (last_told old es) fs
last_told-append old [] fs = refl
last_told-append old (run_pairing_callback callback i ∷ es) fs = last_told-append i es fs
last_told-append old (run_connection_callback n ∷ es) fs = last_told-append old es fs
last_told-append old (run_command_callback n c ∷ es) fs = last_told-append old es fs
last_told-append old (register_for_death_notifications b n ∷ es) fs = last_told-append old es fs
last_told-append old (unregister_for_death_notifications b ∷ es) fs = last_told-append old es fs
last_told-append old (connect_client b n ∷ es) fs = last_told-append old es fs
last_told-append old (register_notification_listener b n ∷ es) fs = last_told-append old es fs
last_told-append old (register_command_handler b c n ∷ es) fs = last_told-append old es fs
last_told-append old (abort_command c k m ∷ es) fs = last_told-append old es fs

-- Where none of the three texts is answered, the pairing stays.
unanswered :
    (answers : List (ℕ × Option String)) (i : PairingInfo)
    → answered answers ≡ false
    → updated answers i ≡ i
unanswered [] i none_there = refl
unanswered ((number, none) ∷ rest) i none_there = unanswered rest i none_there
unanswered ((number, some text) ∷ rest) i none_there = ground (arith, none_there, unanswered rest i)

module _ ⦃strings : BinderStrings⦄ where
  -- An answer for another number.
  latest-other :
      (id k : ℕ) (x : Option String) (rest : List (ℕ × Option String)) (old : String)
      → nat_eq id k ≡ false
      → latest k ((id, x) ∷ rest) old ≡ latest k rest old
  latest-other id k none rest old other = refl
  latest-other id k (some text) rest old other = ground (arith, other)

  module _ {S : Type 0} (binder : IWeaveServiceManager S) (m : S) where
    reading_of : (id : ℕ) → (x : Option String) × (reading binder m id ≡ (id, x))
    reading_of id = elim (Option-cases (getter binder id)) [
      | inl unknown ↦ (none, rw (reading, unknown) refl)
      | inr (call, there) ↦
          (Option.map strings.to_string (answer (call m)), rw (reading, there) refl)
    ]

    -- The answers to a notification leave a text as the manager has it, if its number was told.
    latest-reading :
        (k : ℕ) (text : String) (ids : List ℕ) (old : String)
        → reading binder m k ≡ (k, some text)
        → latest k (map (reading binder m) ids) old ≡ (if member k ids then text else old)
    latest-reading k text [] old known = refl
    latest-reading k text (id ∷ ids) old known = elim (Bool-cases (nat_eq id k)) [
      | inl same ↦
          first (ap (reading binder m) ((nat_eq_iff id k).0 same) ∙ known)
          ∙ ground (arith, same, nat_eq_iff k k, latest-reading k text ids text known)
      | inr other ↦
          let (x, read) = reading_of id in
          first read
          ∙ latest-other id k x (map (reading binder m) ids) old other
          ∙ ground (arith, other, latest-reading k text ids old known)
    ]
      where
        first :
            {r : ℕ × Option String}
            → reading binder m id ≡ r
            → latest k (map (reading binder m) (id ∷ ids)) old
              ≡ latest k (r ∷ map (reading binder m) ids) old
        first e = ap (λ r. latest k (r ∷ map (reading binder m) ids) old) e

    pub arrives-InStep :
        (k : ℕ) (mine theirs : String) (ids : List ℕ) (rest : List (List ℕ))
        → reading binder m k ≡ (k, some theirs)
        → InStep k mine theirs (ids ∷ rest)
        → InStep k (latest k (map (reading binder m) ids) mine) theirs rest
    arrives-InStep k mine theirs ids rest known so_far = elim (Bool-cases (member k ids)) [
      | inl told_now ↦ inl (read ∙ ap (λ b. if b then theirs else mine) told_now)
      | inr other ↦
          let kept = read ∙ ap (λ b. if b then theirs else mine) other in
          elim so_far [
            | inl same ↦ inl (kept ∙ same)
            | inr later ↦ inr (ground (arith, other, later))
          ]
    ]
      where
        read : latest k (map (reading binder m) ids) mine ≡ (if member k ids then theirs else mine)
        read = latest-reading k theirs ids mine known

  pub notified-heard :
      (answers : List (ℕ × Option String)) (callback : ℕ) (i : PairingInfo) (es : List Effect)
      → last_told none es ≡ presented i
      → last_told none
          (es ++ (if answered answers then told (some callback) (updated answers i) else []))
        ≡ presented (updated answers i)
  notified-heard answers callback i es before = elim (Bool-cases (answered answers)) [
    | inl some_answered ↦
        rw some_answered (last_told-append none es (told (some callback) (updated answers i)))
    | inr none_answered ↦
        rw (none_answered, append-nil)
          (before ∙ ap presented (sym (unanswered answers i none_answered)))
  ]

  -- The weak pointer to the instance gives it.
  pub locked :
      (n : ℕ) (answers : List (ℕ × Option String)) (s : ServiceImpl) (w : World)
      → w.service ≡ some s
      → s.number ≡ n
      → notify_service_manager_change n answers w ≡ on_notification answers s w
  unfolding notify_service_manager_change lock
  locked n answers s w there number = ground (arith, there, number, nat_eq_iff s.number n)
