-- ===== src/WeaveService/Path.antt =====
-- buffet/binder_weave_service.cc and libweaved/service.cc: the way of a command from the device to
-- the handler of a client process.
use rockchip_android_system.Prelude.{
  ℕ, ◌≡◌, true, none, some, [], ◌∷◌, ◌++◌, String, arith, Option-cases, inl, inr,
}
use rockchip_android_system.Strings.{BinderStrings, Survives}
use rockchip_android_system.Connection.{ServiceImpl, World, run_command_callback}
use rockchip_android_system.Connection.Calls.{full_name, add_command_handler}
use rockchip_android_system.Connection.Dispatch.{Chosen, added-Chosen}
use rockchip_android_system.WeaveService.{
  LibweaveDevice, BoundHandler, Served, binder_weave_service, register_command_handler, on_command,
}
use rockchip_android_system.WeaveService.Client.{add_handler, receive}

module _ ⦃strings : BinderStrings⦄ ⦃weave : LibweaveDevice⦄ where
  -- The callback that the service object binds for a command.
  abbrev pub bound : String → String → Served → BoundHandler
  bound component name s = record {
    service = s.service.number;
    component_name = component;
    command_name = name;
  }

  add_handler_parts :
      (component trait_name name : String) (callback : ℕ) (impl : ServiceImpl) (w w' : World)
      (s s' : Served)
      → Survives component
      → Survives (full_name trait_name name)
      → add_handler ⦃binder = binder_weave_service⦄ component trait_name name callback impl w s
        ≡ some (w', s')
      → (add_command_handler component trait_name name callback true impl w ≡ some w')
        × (s' ≡ record s {
          device =
              weave.add_command_handler component
                (full_name trait_name name)
                (bound component (full_name trait_name name) s)
                s.device;
        })
  unfolding add_handler binder_weave_service register_command_handler
  add_handler_parts component trait_name name callback impl w w' s s' c n e =
      elim (Option-cases (add_command_handler component trait_name name callback true impl w)) [
        | inl gone ↦ ground (arith, gone, e)
        | inr (v, there) ↦ (ground (arith, there, e), ground (arith, there, e, c, n))
      ]

  -- A client whose instance the subscription holds, and whose service object is bound to that
  -- instance, adds a handler for a command for which the device has none, with names that come
  -- through binder unchanged. Then the device calls the service object for that command, and when
  -- it does, the command comes through binder to the client and runs one handler, once: that of the
  -- first entry with exactly that component and full name that the client has registered before, or
  -- the new one if there was none.
  pub command_reaches_handler :
      (component trait_name name : String) (callback command : ℕ) (impl : ServiceImpl)
      (w w' : World) (s s' : Served)
      → w.service ≡ some impl
      → s.service.client ≡ impl.number
      → Survives component
      → Survives (full_name trait_name name)
      → weave.handler component (full_name trait_name name) s.device ≡ none
      → add_handler ⦃binder = binder_weave_service⦄ component trait_name name callback impl w s
        ≡ some (w', s')
      → (weave.handler component (full_name trait_name name) s'.device
          ≡ some (bound component (full_name trait_name name) s))
        × ((k : ℕ) × Chosen component (full_name trait_name name) impl.command_handlers callback k
            × ((receive
                  (on_command (bound component (full_name trait_name name) s) command s')
                  w').effects
                ≡ w'.effects ++ (run_command_callback k command ∷ [])))
  unfolding receive on_command
  command_reaches_handler component trait_name name callback command impl w w' s s' there client c n
        free added =
      let (e, f) = add_handler_parts component trait_name name callback impl w w' s s' c n added in
      let (k, chosen, runs) =
        added-Chosen component trait_name name callback command impl w w' there e in
      (
        rw f (
            weave.handler-add_command_handler component (full_name trait_name name) _ s.device
              free),
        (k, chosen, rw (f, client, c, n) runs),
      )
