-- ===== src/Connection/Replaced.antt =====
-- libweaved/service.cc: an instance that was replaced is never reached again.
use rockchip_android_system.Prelude.{
  ℕ, ◌≡◌, refl, ◌<◌, Option, none, some, List, [], ◌∷◌, String, arith, nat_eq, nat_eq_iff,
  option_cases, if_cases, subst, Holds, Option-cases, inl, inr,
}
use rockchip_android_system.Connection.{ServiceImpl, World, emit, lock, abort_command}
use rockchip_android_system.Connection.Calls.{
  client_on_command, on_notification, notify_service_manager_change, on_service_connected,
  client_on_service_connected,
}
use rockchip_android_system.Connection.Life.{
  service_connect, destroy, on_weave_service_disconnected, run_reconnect, Event, run_task,
  service_connected, command, notification, binder_died, add_handler, set_listener,
  destroy_subscription, take_task, handle, run_events, Reach, start, next_event,
}
use rockchip_android_system.Connection.Newer.{
  number_of, Newer, kept, unchanged, call-Newer, run-Newer, on_command-Newer, on_notification-Newer,
  set_pairing_info_listener-Newer, add_command_handler-Newer, destroyed-Newer, less_tasks,
}

handle-Newer : (e : Event) (w : World) → Holds (Newer w) (handle e w)
unfolding handle client_on_service_connected client_on_command notify_service_manager_change
    on_service_connected on_weave_service_disconnected
handle-Newer (run_task place found registered) w =
    option_cases (Holds (Newer w)) (take_task place w.tasks) _ _ (λ gone. unchanged w)
      (λ a there. less_tasks a.1 w _ (run-Newer a.0 found registered (record w { tasks = a.1 })))
handle-Newer (service_connected n binder) w =
    call-Newer n w (λ s. on_service_connected binder s w)
      (λ s there. record { later = omega arith; numbered = kept w.next s w there })
handle-Newer (command n component name c) w =
    option_cases (Newer w) (lock n w) _ _
      (λ gone. record { later = omega arith; numbered = λ m e. inl e })
      (λ s there. on_command-Newer component name c s w)
handle-Newer (notification n answers) w =
    call-Newer n w (λ s. on_notification answers s w)
      (λ s there. on_notification-Newer answers s w there)
handle-Newer (binder_died n) w =
    option_cases (Holds (Newer w)) (lock n w) _ _ (λ gone. unchanged w)
      (λ s there. record { later = omega arith; numbered = λ m e. inl e })
handle-Newer (add_handler component trait_name name callback accepted) w =
    option_cases (Holds (Newer w)) w.service _ _ (λ gone. unchanged w)
      (λ s there. add_command_handler-Newer component trait_name name callback accepted s w there)
handle-Newer (set_listener callback) w =
    option_cases (Holds (Newer w)) w.service _ _ (λ gone. unchanged w)
      (λ s there. set_pairing_info_listener-Newer callback s w there)
handle-Newer destroy_subscription w =
    option_cases (Holds (Newer w)) w.service _ _ (λ gone. unchanged w)
      (λ s there. destroyed-Newer s w)

Newer-trans : (u v w : World) → Newer u v → Newer v w → Newer u w
Newer-trans u v w a b = record {
  later = omega (arith, a.later, b.later);
  numbered = λ n e. elim (b.numbered n e) [
    | inl before ↦ elim (a.numbered n before) [
      | inl older ↦ inl older
      | inr fresh ↦ inr (omega (arith, fresh.0, b.later), omega (arith, fresh.1, b.later))
    ]
    | inr fresh ↦ inr (omega (arith, a.later, fresh.0), fresh.1)
  ];
}

run_events-Newer : (es : List Event) (w w' : World) → run_events es w ≡ some w' → Newer w w'
unfolding run_events
run_events-Newer [] w w' e = subst (Holds (Newer w)) e (unchanged w)
run_events-Newer (x ∷ es) w w' e = elim (Option-cases (handle x w)) [
  | inl gone ↦ ground (arith, e, gone)
  | inr (v, step) ↦
      Newer-trans w v w' (subst (Holds (Newer w)) step (handle-Newer x w))
        (run_events-Newer es v w' (ground (arith, e, step)))
]

-- The number of the instance was given out before.
Reach-numbered : (w : World) (n : ℕ) → Reach w → number_of w ≡ some n → n < w.next
unfolding service_connect
Reach-numbered _ n start e = ground (arith, e)
Reach-numbered _ n (next_event x w w' r step) e =
    let newer = subst (Holds (Newer w)) step (handle-Newer x w) in
    elim (newer.numbered n e) [
      | inl before ↦ omega (arith, Reach-numbered w n r before, newer.later)
      | inr fresh ↦ fresh.1
    ]

lock_number :
    (n : ℕ) (w : World)
    → ((s : ServiceImpl) → w.service ≡ some s → ¬ (s.number ≡ n))
    → lock n w ≡ none
unfolding lock
lock_number n w other =
    option_cases (λ o. o ≡ none) w.service _ _ (λ gone. refl)
      (λ s there.
        if_cases (λ o. o ≡ none) (nat_eq s.number n) _ _
          (λ e. ground (arith, e, other s there, nat_eq_iff s.number n)) (λ e. refl))

-- What calls through a weak pointer to the instance `n` find.
unreachable :
    (n : ℕ) (w : World)
    → lock n w ≡ none
    → (component name : String) (c : ℕ) (answers : List (ℕ × Option String))
    → (client_on_command n component name c w
        ≡ emit (abort_command c "service_unavailable" "Command handler is unavailable") w)
      × (notify_service_manager_change n answers w ≡ w)
unfolding client_on_command notify_service_manager_change
unreachable n w gone component name c answers = (ground (arith, gone), ground (arith, gone))

-- An instance that ReconnectOnServiceDisconnection has replaced, in any world that events lead to
-- from Service::Connect, is never reached again, whatever events follow: no weak pointer to it
-- gives an instance, a command that the daemon still sends to it is aborted as unavailable, and
-- changes that the daemon still notifies it of do nothing.
pub replaced_stays_gone :
    (w w' : World) (s : ServiceImpl) (es : List Event)
    → Reach w
    → w.service ≡ some s
    → run_events es (run_reconnect s w) ≡ some w'
    → (component name : String) (c : ℕ) (answers : List (ℕ × Option String))
    → (lock s.number w' ≡ none)
      × (client_on_command s.number component name c w'
          ≡ emit (abort_command c "service_unavailable" "Command handler is unavailable") w')
      × (notify_service_manager_change s.number answers w' ≡ w')
unfolding run_reconnect destroy
replaced_stays_gone w w' s es r there after component name c answers =
    let (aborted, ignored) = unreachable s.number w' gone component name c answers in
    (gone, aborted, ignored)
  where
    newer : Newer (run_reconnect s w) w'
    newer = run_events-Newer es (run_reconnect s w) w' after

    old : s.number < w.next
    old = Reach-numbered w s.number r (ground (arith, there))

    gone : lock s.number w' ≡ none
    gone = lock_number s.number w' (λ t t_there same.
        elim (newer.numbered s.number (ground (arith, t_there, same))) [
          | inl e ↦ ground (arith, old, e)
          | inr e ↦ omega (arith, old, e.0)
        ])
