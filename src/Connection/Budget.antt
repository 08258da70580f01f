-- ===== src/Connection/Budget.antt =====
-- libweaved/service.cc: an instance calls connect of the daemon at most once.
use rockchip_android_system.Prelude.{
  ℕ, zero, suc, ◌+◌, ◌≤◌, ◌≡◌, refl, sym, subst, ◌||◌, Bool, true, false, Option, none, some, List,
  [], ◌∷◌, ◌++◌, String, arith, nat_eq, ltb, option_cases, if_cases, is_empty, Holds, Option-cases,
  inl, inr, if◌then◌else◌,
}
use rockchip_android_system.Connection.{
  ServiceImpl, Task, try_connecting, try_connecting_in_a_second, reconnect_on_service_disconnection,
  World, lock, Effect, connect_client, run_connection_callback, run_command_callback,
  register_for_death_notifications, register_notification_listener, abort_command,
  run_pairing_callback, register_command_handler, unregister_for_death_notifications,
}
use rockchip_android_system.Connection.Calls.{
  full_name, note_all, pairing, find_handler, add_command_handler, on_command, client_on_command,
  set_pairing_info_listener, on_notification, notify_service_manager_change, on_service_connected,
  client_on_service_connected,
}
use rockchip_android_system.Connection.Life.{
  destroy, on_weave_service_disconnected, run_try_connecting, run_reconnect, Event, run_task,
  service_connected, command, notification, binder_died, add_handler, set_listener,
  destroy_subscription, take_task, run, handle,
}
use rockchip_android_system.Connection.Settled.{lock_eq}

abbrev pub one_if : Bool → ℕ
one_if true = 1
one_if false = 0

-- The tasks that try to connect the instance `n`.
abbrev pub trying : ℕ → Task → ℕ
trying n (try_connecting k) = one_if (nat_eq k n)
trying n (try_connecting_in_a_second k) = one_if (nat_eq k n)
trying n (reconnect_on_service_disconnection k) = 0

abbrev pub tries : ℕ → List Task → ℕ
tries n [] = 0
tries n (t ∷ ts) = trying n t + tries n ts

-- 1 for a call of connect by the instance, and for a run of its connection callback.
abbrev pub weight : ℕ → Effect → ℕ
weight n (connect_client binder k) = one_if (nat_eq k n)
weight n (run_connection_callback k) = one_if (nat_eq k n)
weight n _ = 0

abbrev pub spent : ℕ → List Effect → ℕ
spent n [] = 0
spent n (e ∷ es) = weight n e + spent n es

-- 1 as long as no instance has had the number.
abbrev pub unborn : ℕ → World → ℕ
unborn n w = one_if (if ltb n w.next then false else true)

abbrev pub total : ℕ → World → ℕ
total n w = tries n w.tasks + spent n w.effects + unborn n w

pub tries-append : (n : ℕ) (ts us : List Task) → tries n (ts ++ us) ≡ tries n ts + tries n us
tries-append n [] us = omega arith
tries-append n (t ∷ ts) us = omega (arith, tries-append n ts us)

spent-append : (n : ℕ) (es fs : List Effect) → spent n (es ++ fs) ≡ spent n es + spent n fs
spent-append n [] fs = omega arith
spent-append n (e ∷ es) fs = omega (arith, spent-append n es fs)

take_task-tries :
    (place n : ℕ) (ts rest : List Task) (t : Task)
    → take_task place ts ≡ some (t, rest)
    → tries n ts ≡ trying n t + tries n rest
unfolding take_task
take_task-tries place n [] rest t e = ground (arith, e)
take_task-tries zero n (u ∷ ts) rest t e = ground (arith, e)
take_task-tries (suc place) n (u ∷ ts) rest t e = elim (Option-cases (take_task place ts)) [
  | inl gone ↦ ground (arith, e, gone)
  | inr ((v, vs), there) ↦ ground (arith, e, there, take_task-tries place n ts vs v there)
]

module _ (n k : ℕ) where
  -- The instance is not beyond its budget.
  abbrev pub Within : World → Type 0
  Within w = total n w ≤ k

  emit-Within :
      (e : Effect) (w : World)
      → weight n e ≡ 0
      → Within w
      → Within (record w { effects = w.effects ++ (e ∷ []) })
  emit-Within e w free h = omega (arith, free, h, spent-append n w.effects (e ∷ []))

  run_try_connecting-Within :
      (found : Option ℕ) (registered : Bool) (s : ServiceImpl) (w : World)
      → one_if (nat_eq s.number n) + total n w ≤ k
      → Within (run_try_connecting found registered s w)
  unfolding run_try_connecting on_weave_service_disconnected
  run_try_connecting-Within none registered s w h =
      omega (arith, h, tries-append n w.tasks (try_connecting_in_a_second s.number ∷ []))
  run_try_connecting-Within (some binder) false s w h =
      omega (arith, h, tries-append n w.tasks (reconnect_on_service_disconnection s.number ∷ []))
  run_try_connecting-Within (some binder) true s w h =
      let es1 = w.effects ++ (register_for_death_notifications binder s.number ∷ []) in
      let es2 = es1 ++ (connect_client binder s.number ∷ []) in
      omega (
        arith,
        h,
        spent-append n w.effects (register_for_death_notifications binder s.number ∷ []),
        spent-append n es1 (connect_client binder s.number ∷ []),
        spent-append n es2 (register_notification_listener binder s.number ∷ []),
      )

  run_reconnect-Within : (s : ServiceImpl) (w : World) → Within w → Within (run_reconnect s w)
  unfolding run_reconnect destroy
  run_reconnect-Within s w h =
      ground (arith, h, tries-append n w.tasks (try_connecting w.next ∷ []))

  try_lem :
      (m : ℕ) (found : Option ℕ) (registered : Bool) (w : World)
      → one_if (nat_eq m n) + total n w ≤ k
      → Within (elim (lock m w) [ none ↦ w | some s ↦ run_try_connecting found registered s w ])
  try_lem m found registered w h =
      option_cases Within (lock m w) _ _ (λ gone. omega (arith, h))
        (λ s there.
          run_try_connecting-Within found registered s w
            (subst (λ j. one_if (nat_eq j n) + total n w ≤ k) (sym (lock_eq m w s there).1) h))

  run-Within :
      (t : Task) (found : Option ℕ) (registered : Bool) (w : World)
      → trying n t + total n w ≤ k
      → Within (run t found registered w)
  unfolding run
  run-Within (try_connecting m) found registered w h = try_lem m found registered w h
  run-Within (try_connecting_in_a_second m) found registered w h = try_lem m found registered w h
  run-Within (reconnect_on_service_disconnection m) found registered w h =
      option_cases Within (lock m w) _ _ (λ gone. omega (arith, h))
        (λ s there. run_reconnect-Within s w (omega (arith, h)))

  on_command-Within :
      (component name : String) (c : ℕ) (s : ServiceImpl) (w : World)
      → Within w
      → Within (on_command component name c s w)
  unfolding on_command
  on_command-Within component name c s w h =
      option_cases Within (find_handler component name s.command_handlers) _ _ (λ gone. h)
        (λ a there. emit-Within (run_command_callback a c) w refl h)

  on_notification-Within :
      (answers : List (ℕ × Option String)) (s : ServiceImpl) (w : World)
      → Within w
      → Within (on_notification answers s w)
  unfolding on_notification
  on_notification-Within answers s w h =
      if_cases Within (note_all answers (s.pairing_info, false)).1 _ _
        (λ e.
          option_cases Within s.pairing_info_callback _ _ (λ gone. h)
            (λ a t. emit-Within (run_pairing_callback a _) w refl h))
        (λ e. h)

  set_pairing_info_listener-Within :
      (callback : Option ℕ) (s : ServiceImpl) (w : World)
      → Within w
      → Within (set_pairing_info_listener callback s w)
  unfolding set_pairing_info_listener
  set_pairing_info_listener-Within none s w h = h
  set_pairing_info_listener-Within (some callback) s w h =
      if_cases Within (pairing s.pairing_info) _ _
        (λ e. emit-Within (run_pairing_callback callback (some s.pairing_info)) w refl h) (λ e. h)

  add_command_handler-Within :
      (component trait_name name : String) (callback : ℕ) (accepted : Bool) (s : ServiceImpl)
      (w : World)
      → Within w
      → Holds Within (add_command_handler component trait_name name callback accepted s w)
  unfolding add_command_handler
  add_command_handler-Within component trait_name name callback accepted s w h =
      if_cases (Holds Within) (is_empty component || is_empty name) _ _ (λ e. tt)
        (λ e.
          option_cases (Holds Within) s.weave_service _ _ (λ gone. tt)
            (λ b t.
              if_cases (Holds Within) accepted _ _
                (λ a.
                  emit-Within (register_command_handler b component (full_name trait_name name)) w
                    refl h)
                (λ a. tt)))

  destroy-Within : (s : ServiceImpl) (w : World) → Within w → Within (destroy s w)
  unfolding destroy
  destroy-Within s w h =
      option_cases Within s.weave_service _ _ (λ gone. h)
        (λ b there. emit-Within (unregister_for_death_notifications b) w refl h)

  disconnected-Within : (m : ℕ) (w : World) → Within w → Within (on_weave_service_disconnected m w)
  unfolding on_weave_service_disconnected
  disconnected-Within m w h =
      omega (arith, h, tries-append n w.tasks (reconnect_on_service_disconnection m ∷ []))

  -- A service object that comes in costs one.
  pub client_on_service_connected-Within :
      (m binder : ℕ) (w : World)
      → one_if (nat_eq m n) + total n w ≤ k
      → Within (client_on_service_connected m binder w)
  unfolding client_on_service_connected on_service_connected
  client_on_service_connected-Within m binder w h =
      option_cases Within (lock m w) _ _ (λ gone. omega (arith, h))
        (λ s there.
          let paid =
            subst (λ j. one_if (nat_eq j n) + total n w ≤ k) (sym (lock_eq m w s there).1) h in
          omega (arith, paid, spent-append n w.effects (run_connection_callback s.number ∷ [])))

  -- No service object comes in.
  abbrev pub Apart : Event → Type 0
  Apart (service_connected m binder) = ⊥
  Apart _ = Unit

  pub handle-Within : (e : Event) (w : World) → Apart e → Within w → Holds Within (handle e w)
  unfolding handle client_on_command notify_service_manager_change
  handle-Within (run_task place found registered) w apart h =
      option_cases (Holds Within) (take_task place w.tasks) _ _ (λ gone. h)
        (λ (t, ts) there.
          run-Within t found registered (record w { tasks = ts })
            (omega (arith, h, take_task-tries place n w.tasks ts t there)))
  handle-Within (service_connected m binder) w apart h = absurd apart
  handle-Within (command m component name c) w apart h =
      option_cases Within (lock m w) _ _
        (λ gone.
          emit-Within (abort_command c "service_unavailable" "Command handler is unavailable") w
            refl h)
        (λ s there. on_command-Within component name c s w h)
  handle-Within (notification m answers) w apart h =
      option_cases Within (lock m w) _ _ (λ gone. h)
        (λ s there. on_notification-Within answers s w h)
  handle-Within (binder_died m) w apart h =
      option_cases (Holds Within) (lock m w) _ _ (λ gone. h) (λ s there. disconnected-Within m w h)
  handle-Within (add_handler component trait_name name callback accepted) w apart h =
      option_cases (Holds Within) w.service _ _ (λ gone. h)
        (λ s there. add_command_handler-Within component trait_name name callback accepted s w h)
  handle-Within (set_listener callback) w apart h =
      option_cases (Holds Within) w.service _ _ (λ gone. h)
        (λ s there. set_pairing_info_listener-Within callback s w h)
  handle-Within destroy_subscription w apart h =
      option_cases (Holds Within) w.service _ _ (λ gone. h)
        (λ s there. destroy-Within s (record w { service = none }) h)
