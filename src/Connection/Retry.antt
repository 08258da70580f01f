-- ===== src/Connection/Retry.antt =====
-- libweaved/service.cc: the client goes on until it has its service object.
use rockchip_android_system.Prelude.{
  ℕ, ◌≡◌, refl, ◌||◌, Bool, true, false, Option, none, some, List, [], ◌∷◌, ◌++◌, String, arith,
  nat_eq, is_some, option_cases, if_cases, subst, is_empty, Holds,
}
use rockchip_android_system.Connection.{
  ServiceImpl, Task, try_connecting, try_connecting_in_a_second, reconnect_on_service_disconnection,
  World, lock, Effect, connect_client, run_command_callback, register_for_death_notifications,
  register_notification_listener, abort_command,
}
use rockchip_android_system.Connection.Calls.{
  note_all, pairing, find_handler, add_command_handler, on_command, client_on_command,
  set_pairing_info_listener, on_notification, notify_service_manager_change, on_service_connected,
  client_on_service_connected,
}
use rockchip_android_system.Connection.Life.{
  service_connect, destroy, on_weave_service_disconnected, run_try_connecting, run_reconnect, Event,
  run_task, service_connected, command, notification, binder_died, add_handler, set_listener,
  destroy_subscription, take_task, run, handle, Reach, start, next_event,
}
use rockchip_android_system.Connection.Settled.{
  task_number, awaits, awaits-post, take_task-awaits, has-emit, settled, Settled, SettledBut,
  lock_eq, more_effects, more_tasks,
}

module _ (owed : ℕ → Bool) where
  lock-none : (n : ℕ) (w : World) → lock n w ≡ none → SettledBut owed n w → Settled owed w
  unfolding lock
  lock-none n w e h s there = ground (arith, e, there, h s there)

  run_try_connecting-Settled :
      (found : Option ℕ) (registered : Bool) (s : ServiceImpl) (w : World)
      → w.service ≡ some s
      → Settled owed (run_try_connecting found registered s w)
  unfolding run_try_connecting on_weave_service_disconnected
  run_try_connecting-Settled none registered s w there t e =
      ground (arith, there, e, awaits-post s.number w.tasks (try_connecting_in_a_second s.number))
  run_try_connecting-Settled (some binder) false s w there t e =
      ground (
        arith,
        there,
        e,
        awaits-post s.number w.tasks (reconnect_on_service_disconnection s.number),
      )
  run_try_connecting-Settled (some binder) true s w there t e =
      let es1 = w.effects ++ (register_for_death_notifications binder s.number ∷ []) in
      let es2 = es1 ++ (connect_client binder s.number ∷ []) in
      ground (
        arith,
        e,
        has-emit s.number es1 (connect_client binder s.number),
        has-emit s.number es2 (register_notification_listener binder s.number),
      )

  run_reconnect-Settled : (s : ServiceImpl) (w : World) → Settled owed (run_reconnect s w)
  unfolding run_reconnect destroy
  run_reconnect-Settled s w t e =
      ground (arith, e, awaits-post w.next w.tasks (try_connecting w.next))

  try_lem :
      (n : ℕ) (found : Option ℕ) (registered : Bool) (w : World)
      → SettledBut owed n w
      → Settled owed
          (elim (lock n w) [ none ↦ w | some s ↦ run_try_connecting found registered s w ])
  try_lem n found registered w h =
      option_cases (Settled owed) (lock n w) _ _ (λ gone. lock-none n w gone h)
        (λ s there. run_try_connecting-Settled found registered s w (lock_eq n w s there).0)

  run-Settled :
      (t : Task) (found : Option ℕ) (registered : Bool) (w : World)
      → SettledBut owed (task_number t) w
      → Settled owed (run t found registered w)
  unfolding run
  run-Settled (try_connecting n) found registered w h = try_lem n found registered w h
  run-Settled (try_connecting_in_a_second n) found registered w h = try_lem n found registered w h
  run-Settled (reconnect_on_service_disconnection n) found registered w h =
      option_cases (Settled owed) (lock n w) _ _ (λ gone. lock-none n w gone h)
        (λ s there. run_reconnect-Settled s w)

  -- What changes neither the number of the instance nor its two binder objects, nor the tasks.
  kept :
      (s s' : ServiceImpl) (w : World)
      → w.service ≡ some s
      → (s'.number ≡ s.number)
        × (s'.weave_service_manager ≡ s.weave_service_manager)
        × (s'.weave_service ≡ s.weave_service)
      → Settled owed w
      → (t : ServiceImpl) → some s' ≡ some t
      → settled owed t w.tasks w.effects ≡ true
  kept s s' w there (number, manager, service) h t e =
      ground (arith, h s there, e, number, manager, service)

  -- The same with one more effect.
  kept_more :
      (s s' : ServiceImpl) (w : World) (e : Effect)
      → w.service ≡ some s
      → (s'.number ≡ s.number)
        × (s'.weave_service_manager ≡ s.weave_service_manager)
        × (s'.weave_service ≡ s.weave_service)
      → Settled owed w
      → (t : ServiceImpl) → some s' ≡ some t
      → settled owed t w.tasks (w.effects ++ (e ∷ [])) ≡ true
  kept_more s s' w x there same h t e =
      more_effects owed t w.tasks w.effects x (kept s s' w there same h t e)

  -- A binder call for a weak pointer.
  call-Settled :
      (n : ℕ) (w : World) (x : World) (f : ServiceImpl → World)
      → Settled owed x
      → ((s : ServiceImpl) → w.service ≡ some s → Settled owed (f s))
      → Settled owed (elim (lock n w) [ none ↦ x | some s ↦ f s ])
  call-Settled n w x f busy h =
      option_cases (Settled owed) (lock n w) x f (λ gone. busy)
        (λ s there. h s (lock_eq n w s there).0)

  emit-Settled :
      (e : Effect) (w : World)
      → Settled owed w
      → Settled owed (record w { effects = w.effects ++ (e ∷ []) })
  emit-Settled e w h s there = more_effects owed s w.tasks w.effects e (h s there)

  on_command-Settled :
      (component name : String) (c : ℕ) (s : ServiceImpl) (w : World)
      → Settled owed w
      → Settled owed (on_command component name c s w)
  unfolding on_command
  on_command-Settled component name c s w h =
      option_cases (Settled owed) (find_handler component name s.command_handlers) _ _ (λ gone. h)
        (λ a there. emit-Settled (run_command_callback a c) w h)

  on_notification-Settled :
      (answers : List (ℕ × Option String)) (s : ServiceImpl) (w : World)
      → w.service ≡ some s
      → Settled owed w
      → Settled owed (on_notification answers s w)
  unfolding on_notification
  on_notification-Settled answers s w there h =
      if_cases (Settled owed) (note_all answers (s.pairing_info, false)).1 _ _
        (λ e.
          option_cases (Settled owed) s.pairing_info_callback _ _
            (λ gone. kept s _ w there (refl, refl, refl) h)
            (λ a t. kept_more s _ w _ there (refl, refl, refl) h))
        (λ e. kept s _ w there (refl, refl, refl) h)

  set_pairing_info_listener-Settled :
      (callback : Option ℕ) (s : ServiceImpl) (w : World)
      → w.service ≡ some s
      → Settled owed w
      → Settled owed (set_pairing_info_listener callback s w)
  unfolding set_pairing_info_listener
  set_pairing_info_listener-Settled none s w there h = kept s _ w there (refl, refl, refl) h
  set_pairing_info_listener-Settled (some callback) s w there h =
      if_cases (Settled owed) (pairing s.pairing_info) _ _
        (λ e. kept_more s _ w _ there (refl, refl, refl) h)
        (λ e. kept s _ w there (refl, refl, refl) h)

  add_command_handler-Settled :
      (component trait_name name : String) (callback : ℕ) (accepted : Bool) (s : ServiceImpl)
      (w : World)
      → w.service ≡ some s
      → Settled owed w
      → Holds (Settled owed) (add_command_handler component trait_name name callback accepted s w)
  unfolding add_command_handler
  add_command_handler-Settled component trait_name name callback accepted s w there h =
      if_cases (Holds (Settled owed)) (is_empty component || is_empty name) _ _ (λ e. tt)
        (λ e.
          option_cases (Holds (Settled owed)) s.weave_service _ _ (λ gone. tt)
            (λ b t.
              if_cases (Holds (Settled owed)) accepted _ _
                (λ a. kept_more s _ w _ there (refl, refl, refl) h) (λ a. tt)))

  on_weave_service_disconnected-Settled :
      (n : ℕ) (w : World) → Settled owed w → Settled owed (on_weave_service_disconnected n w)
  unfolding on_weave_service_disconnected
  on_weave_service_disconnected-Settled n w h s there =
      more_tasks owed s w.tasks w.effects (reconnect_on_service_disconnection n) (h s there)

  destroyed-Settled :
      (s : ServiceImpl) (w : World) → Settled owed (destroy s (record w { service = none }))
  unfolding destroy
  destroyed-Settled s w =
      option_cases (Settled owed) s.weave_service _ _ (λ gone t e. ground arith)
        (λ b there t e. ground arith)

  lock-other :
      (n : ℕ) (w : World) (s : ServiceImpl)
      → lock n w ≡ none
      → w.service ≡ some s
      → nat_eq n s.number ≡ false
  unfolding lock
  lock-other n w s gone there = ground (arith, gone, there)

  -- A service object that comes in for the instance `n`, which may be all that was owed to it.
  pub on_service_connected-Settled :
      (owed' : ℕ → Bool) (n binder : ℕ) (w : World)
      → ((k : ℕ) → nat_eq n k ≡ false → owed k ≡ owed' k)
      → Settled owed w
      → Settled owed' (client_on_service_connected n binder w)
  unfolding client_on_service_connected on_service_connected
  on_service_connected-Settled owed' n binder w same h =
      option_cases (Settled owed') (lock n w) _ _
        (λ gone s there. ground (arith, h s there, same s.number (lock-other n w s gone there)))
        (λ s there t e. ground (arith, h s (lock_eq n w s there).0, e))

  pub handle-Settled : (e : Event) (w : World) → Settled owed w → Holds (Settled owed) (handle e w)
  unfolding handle client_on_command notify_service_manager_change
  handle-Settled (run_task place found registered) w h =
      option_cases (Holds (Settled owed)) (take_task place w.tasks) _ _ (λ gone. h)
        (λ a there.
          run-Settled a.0 found registered (record w { tasks = a.1 })
            (λ s e. ground (arith, h s e, take_task-awaits place s.number w.tasks a.1 a.0 there)))
  handle-Settled (service_connected n binder) w h =
      on_service_connected-Settled owed n binder w (λ k other. refl) h
  handle-Settled (command n component name c) w h =
      call-Settled n w _ _
        (emit-Settled (abort_command c "service_unavailable" "Command handler is unavailable") w h)
        (λ s there. on_command-Settled component name c s w h)
  handle-Settled (notification n answers) w h =
      call-Settled n w _ _ h (λ s there. on_notification-Settled answers s w there h)
  handle-Settled (binder_died n) w h =
      option_cases (Holds (Settled owed)) (lock n w) _ _ (λ gone. h)
        (λ s there. on_weave_service_disconnected-Settled n w h)
  handle-Settled (add_handler component trait_name name callback accepted) w h =
      option_cases (Holds (Settled owed)) w.service _ _ (λ gone. h)
        (λ s there.
          add_command_handler-Settled component trait_name name callback accepted s w there h)
  handle-Settled (set_listener callback) w h =
      option_cases (Holds (Settled owed)) w.service _ _ (λ gone. h)
        (λ s there. set_pairing_info_listener-Settled callback s w there h)
  handle-Settled destroy_subscription w h =
      option_cases (Holds (Settled owed)) w.service _ _ (λ gone. h)
        (λ s there. destroyed-Settled s w)

  connect-Settled : Settled owed service_connect
  unfolding service_connect
  connect-Settled s there = ground (arith, there)

  Reach-Settled : (w : World) → Reach w → Settled owed w
  Reach-Settled _ start = connect-Settled
  Reach-Settled _ (next_event e w w' r step) =
      subst (Holds (Settled owed)) step (handle-Settled e w (Reach-Settled w r))

-- The client never gives up: in every world that events lead to from Service::Connect, while the
-- subscription holds an instance, that instance either has the daemon's service manager, or a task
-- of that very instance is in the queue, one that tries to connect or replaces the instance.
pub connecting_goes_on :
    (w : World) (s : ServiceImpl)
    → Reach w
    → w.service ≡ some s
    → (is_some s.weave_service_manager || awaits s.number w.tasks) ≡ true
connecting_goes_on w s r there = ground (arith, Reach-Settled (λ n. false) w r s there)
