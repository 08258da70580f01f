-- ===== src/Connection/Newer.antt =====
-- libweaved/service.cc: what each operation does to the number of the instance.
use rockchip_android_system.Prelude.{
  ℕ, ◌≡◌, ◌⊎◌, ◌<◌, ◌≤◌, Bool, true, false, Option, none, some, List, String, arith, is_empty, ◌||◌,
  option_cases, if_cases, Holds, Option-cases, inl, inr,
}
use rockchip_android_system.Connection.{
  ServiceImpl, Task, try_connecting, try_connecting_in_a_second, reconnect_on_service_disconnection,
  World, lock,
}
use rockchip_android_system.Connection.Calls.{
  pairing, note_all, find_handler, add_command_handler, on_command, set_pairing_info_listener,
  on_notification,
}
use rockchip_android_system.Connection.Life.{
  destroy, on_weave_service_disconnected, run_try_connecting, run_reconnect, run,
}

-- The number of the instance, if there is one.
abbrev pub number_of : World → Option ℕ
number_of w = elim w.service [ none ↦ none | some s ↦ some s.number ]

-- From `w` to `w'` either the instance keeps its number, or it is gone, or it has a number that no
-- instance had before.
pub record Newer (w w' : World) : Type 0 where
  pub later : w.next ≤ w'.next
  pub numbered :
      (n : ℕ) → number_of w' ≡ some n → (number_of w ≡ some n) ⊎ ((w.next ≤ n) × (n < w'.next))

pub kept :
    (m : ℕ) (s : ServiceImpl) (w : World)
    → w.service ≡ some s
    → (n : ℕ) → some s.number ≡ some n
    → (number_of w ≡ some n) ⊎ ((w.next ≤ n) × (n < m))
kept m s w there n e = inl (ground (arith, there, e))

pub unchanged : (w : World) → Newer w w
unchanged w = record { later = omega arith; numbered = λ n e. inl e }

lock_service : (n : ℕ) (w : World) (s : ServiceImpl) → lock n w ≡ some s → w.service ≡ some s
unfolding lock
lock_service n w s e = elim (Option-cases w.service) [
  | inl gone ↦ ground (arith, e, gone)
  | inr (t, there) ↦ ground (arith, e, there)
]

-- A call through a weak pointer.
pub call-Newer :
    (n : ℕ) (w : World) (f : ServiceImpl → World)
    → ((s : ServiceImpl) → w.service ≡ some s → Newer w (f s))
    → Newer w (elim (lock n w) [ none ↦ w | some s ↦ f s ])
call-Newer n w f h =
    option_cases (Newer w) (lock n w) w f (λ gone. unchanged w)
      (λ s there. h s (lock_service n w s there))

run_try_connecting-Newer :
    (found : Option ℕ) (registered : Bool) (s : ServiceImpl) (w : World)
    → w.service ≡ some s
    → Newer w (run_try_connecting found registered s w)
unfolding run_try_connecting on_weave_service_disconnected
run_try_connecting-Newer none registered s w there = record {
  later = omega arith;
  numbered = λ n e. inl e;
}
run_try_connecting-Newer (some binder) false s w there = record {
  later = omega arith;
  numbered = λ n e. inl e;
}
run_try_connecting-Newer (some binder) true s w there = record {
  later = omega arith;
  numbered = kept w.next s w there;
}

run_reconnect-Newer : (s : ServiceImpl) (w : World) → Newer w (run_reconnect s w)
unfolding run_reconnect destroy
run_reconnect-Newer s w = record { later = omega arith; numbered = λ n e. inr (ground (arith, e)) }

pub run-Newer :
    (t : Task) (found : Option ℕ) (registered : Bool) (w : World)
    → Newer w (run t found registered w)
unfolding run
run-Newer (try_connecting n) found registered w =
    call-Newer n w (λ s. run_try_connecting found registered s w)
      (λ s there. run_try_connecting-Newer found registered s w there)
run-Newer (try_connecting_in_a_second n) found registered w =
    call-Newer n w (λ s. run_try_connecting found registered s w)
      (λ s there. run_try_connecting-Newer found registered s w there)
run-Newer (reconnect_on_service_disconnection n) found registered w =
    call-Newer n w (λ s. run_reconnect s w) (λ s there. run_reconnect-Newer s w)

pub on_command-Newer :
    (component name : String) (c : ℕ) (s : ServiceImpl) (w : World)
    → Newer w (on_command component name c s w)
unfolding on_command
on_command-Newer component name c s w =
    option_cases (Newer w) (find_handler component name s.command_handlers) _ _
      (λ gone. unchanged w) (λ a there. record { later = omega arith; numbered = λ n e. inl e })

pub on_notification-Newer :
    (answers : List (ℕ × Option String)) (s : ServiceImpl) (w : World)
    → w.service ≡ some s
    → Newer w (on_notification answers s w)
unfolding on_notification
on_notification-Newer answers s w there =
    if_cases (Newer w) (note_all answers (s.pairing_info, false)).1 _ _
      (λ e.
        option_cases (Newer w) s.pairing_info_callback _ _
          (λ gone. record { later = omega arith; numbered = kept w.next s w there })
          (λ a t. record { later = omega arith; numbered = kept w.next s w there }))
      (λ e. record { later = omega arith; numbered = kept w.next s w there })

pub set_pairing_info_listener-Newer :
    (callback : Option ℕ) (s : ServiceImpl) (w : World)
    → w.service ≡ some s
    → Newer w (set_pairing_info_listener callback s w)
unfolding set_pairing_info_listener
set_pairing_info_listener-Newer none s w there = record {
  later = omega arith;
  numbered = kept w.next s w there;
}
set_pairing_info_listener-Newer (some callback) s w there =
    if_cases (Newer w) (pairing s.pairing_info) _ _
      (λ e. record { later = omega arith; numbered = kept w.next s w there })
      (λ e. record { later = omega arith; numbered = kept w.next s w there })

pub add_command_handler-Newer :
    (component trait_name name : String) (callback : ℕ) (accepted : Bool) (s : ServiceImpl)
    (w : World)
    → w.service ≡ some s
    → Holds (Newer w) (add_command_handler component trait_name name callback accepted s w)
unfolding add_command_handler
add_command_handler-Newer component trait_name name callback accepted s w there =
    if_cases good (is_empty component || is_empty name) _ _ (λ e. tt)
      (λ e.
        option_cases good s.weave_service _ _ (λ gone. tt)
          (λ b t.
            if_cases good accepted _ _
              (λ a. record { later = omega arith; numbered = kept w.next s w there }) (λ a. tt)))
  where
    good : Option World → Type 0
    good = Holds (Newer w)

pub destroyed-Newer :
    (s : ServiceImpl) (w : World) → Newer w (destroy s (record w { service = none }))
unfolding destroy
destroyed-Newer s w =
    option_cases (Newer w) s.weave_service _ _
      (λ gone. record { later = omega arith; numbered = λ n e. ground (arith, e) })
      (λ b t. record { later = omega arith; numbered = λ n e. ground (arith, e) })

pub less_tasks : (ts : List Task) (w v : World) → Newer (record w { tasks = ts }) v → Newer w v
less_tasks ts w v a = record { later = a.later; numbered = a.numbered }
