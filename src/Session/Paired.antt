-- ===== src/Session/Paired.antt =====
-- buffet/manager.cc and libweaved/service.cc: what the application is told of a pairing of the
-- daemon.
use rockchip_android_system.Prelude.{
  ℕ, ◌≡◌, refl, sym, ap, ◌∙◌, subst, true, none, some, List, [], ◌∷◌, ◌++◌, String, arith, inl, inr,
  Holds, option_cases, map, if◌then◌else◌,
}
use rockchip_android_system.NotificationListener
use rockchip_android_system.Strings.{BinderStrings, Survives}
use rockchip_android_system.Connection.{PairingInfo, ServiceImpl, no_pairing, make_service}
use rockchip_android_system.Connection.Calls.{notify_service_manager_change}
use rockchip_android_system.Connection.Pairing.{answered, updated, told, on_notification_lem}
use rockchip_android_system.Manager.{Manager, get_value}
use rockchip_android_system.Manager.System as Daemon_system
use rockchip_android_system.Manager.Interface.{weave_service_manager}
use rockchip_android_system.Session.Watched.{
  notices_for, Watched, Event, manager_acts, notice_arrives, getter, reading, manager_interface,
  handle, run_events, watching,
}
use rockchip_android_system.Session.Told.{
  manager_pairing, presented, last_told, arrives-InStep, notified-heard, locked,
}
use rockchip_android_system.Session.Sent.{member, waiting, waiting-append, InStep, Tells}
use rockchip_android_system.Session.Steps.{Stays, step-Tells}

same_pairing :
    (i j : PairingInfo)
    → i.session_id ≡ j.session_id
    → i.pairing_mode ≡ j.pairing_mode
    → i.pairing_code ≡ j.pairing_code
    → i ≡ j
same_pairing i j a b c = ground (arith, a, b, c)

quiet :
    (k : ℕ) (mine theirs : String) (notices : List (List ℕ))
    → InStep k mine theirs notices
    → notices ≡ []
    → mine ≡ theirs
quiet k mine theirs notices (inl same) idle = same
quiet k mine theirs notices (inr later) idle =
    absurd (ground (arith, sym later ∙ ap (waiting k) idle))

-- The listener does not die.
abbrev pub StaysListening : {P A : Type 0} → ℕ → List (Event P A) → Type 0
StaysListening n [] = Unit
StaysListening n (manager_acts e ∷ es) = Stays n e × StaysListening n es
StaysListening n (notice_arrives ∷ es) = StaysListening n es

module _ ⦃strings : BinderStrings⦄ where
  -- The instance has the callback and is told by the manager, its texts are in step with the
  -- manager's, and the callback was run last with the pairing of the instance.
  record Follows (n callback : ℕ) (w : Watched) : Type 0 where
    pub service : ServiceImpl
    pub there : w.world.service ≡ some service
    pub number : service.number ≡ n
    pub calls_back : service.pairing_info_callback ≡ some callback
    pub session :
        InStep NotificationListener.pairing_session_id service.pairing_info.session_id
          w.manager.pairing_session_id w.notices
    pub mode :
        InStep NotificationListener.pairing_mode service.pairing_info.pairing_mode
          w.manager.pairing_mode w.notices
    pub code :
        InStep NotificationListener.pairing_code service.pairing_info.pairing_code
          w.manager.pairing_code w.notices
    pub listens : member n w.manager.notification_listeners ≡ true
    pub heard : last_told none w.world.effects ≡ presented service.pairing_info

  arrives-Follows :
      (n callback : ℕ) (w : Watched) (ids : List ℕ) (rest : List (List ℕ))
      → ((t : String) → Survives t)
      → w.notices ≡ ids ∷ rest
      → Follows n callback w
      → Follows n callback (record w {
        world =
            notify_service_manager_change n (map (reading manager_interface w.manager) ids) w.world;
        notices = rest;
      })
  unfolding getter weave_service_manager get_value
  arrives-Follows n callback w ids rest survives next f =
      let m = w.manager in
      let i = f.service.pairing_info in
      let answers = map (reading manager_interface m) ids in
      let ran = locked n answers f.service w.world f.there f.number in
      let now = on_notification_lem answers f.service w.world in
      record {
        service = record (f.service) { pairing_info = updated answers i };
        there = ap (λ v. v.service) ran ∙ now.0;
        number = f.number;
        calls_back = f.calls_back;
        session =
            arrives-InStep manager_interface m NotificationListener.pairing_session_id i.session_id
              m.pairing_session_id ids rest
              (ap (λ t. (NotificationListener.pairing_session_id, some t))
                (survives m.pairing_session_id))
              (subst
                (InStep NotificationListener.pairing_session_id i.session_id m.pairing_session_id)
                next f.session);
        mode =
            arrives-InStep manager_interface m NotificationListener.pairing_mode i.pairing_mode
              m.pairing_mode ids rest
              (ap (λ t. (NotificationListener.pairing_mode, some t)) (survives m.pairing_mode))
              (subst (InStep NotificationListener.pairing_mode i.pairing_mode m.pairing_mode) next
                f.mode);
        code =
            arrives-InStep manager_interface m NotificationListener.pairing_code i.pairing_code
              m.pairing_code ids rest
              (ap (λ t. (NotificationListener.pairing_code, some t)) (survives m.pairing_code))
              (subst (InStep NotificationListener.pairing_code i.pairing_code m.pairing_code) next
                f.code);
        listens = f.listens;
        heard =
            ap (λ v. last_told none v.effects) ran
            ∙ ap (last_told none) now.1
            ∙ ap
                (λ c. last_told none (
                  w.world.effects ++ (if answered answers then told c (updated answers i) else [])))
                f.calls_back
            ∙ notified-heard answers callback i w.world.effects f.heard;
      }

  acts-InStep :
      (k : ℕ) (mine old new : String) (notices out : List (List ℕ))
      → InStep k mine old notices
      → InStep k old new out
      → InStep k mine new (notices ++ out)
  acts-InStep k mine old new notices out (inl a) (inl b) = inl (a ∙ b)
  acts-InStep k mine old new notices out a (inr sent) =
      inr (ground (arith, sent, waiting-append k notices out))
  acts-InStep k mine old new notices out (inr later) b =
      inr (ground (arith, later, waiting-append k notices out))

  handle-Follows :
      {P A : Type 0} (n callback : ℕ) (e : Event P A) (w : Watched)
      → ((t : String) → Survives t)
      → StaysListening n (e ∷ [])
      → Follows n callback w
      → Holds (Follows n callback) (handle n e w)
  unfolding handle
  handle-Follows n callback (manager_acts e) w survives (stays, _) f =
      let m : Manager = record (w.manager) { log = [] } in
      option_cases (Holds (Follows n callback)) (Daemon_system.handle e m) _ _ (λ gone. tt)
        (λ m' ran.
          let (session, mode, code, listens) =
            subst (Holds (Tells n m)) ran (step-Tells n e m refl f.listens stays) in
          let out = notices_for n m'.log in
          let i = f.service.pairing_info in
          record {
            service = f.service;
            there = f.there;
            number = f.number;
            calls_back = f.calls_back;
            session =
                acts-InStep _ i.session_id m.pairing_session_id _ w.notices out f.session session;
            mode = acts-InStep _ i.pairing_mode m.pairing_mode _ w.notices out f.mode mode;
            code = acts-InStep _ i.pairing_code m.pairing_code _ w.notices out f.code code;
            listens = listens;
            heard = f.heard;
          })
  handle-Follows n callback notice_arrives w survives stays f = arrives w.notices refl
    where
      arrives :
          (notices : List (List ℕ))
          → w.notices ≡ notices
          → Holds (Follows n callback) (elim notices [
            | [] ↦ some w
            | ids ∷ rest ↦ some (record w {
              world =
                  notify_service_manager_change n
                    (map (reading manager_interface w.manager) ids)
                    w.world;
              notices = rest;
            })
          ])
      arrives [] e = f
      arrives (ids ∷ rest) e = arrives-Follows n callback w ids rest survives e f

  run_events-Follows :
      {P A : Type 0} (n callback : ℕ) (es : List (Event P A)) (w : Watched)
      → ((t : String) → Survives t)
      → StaysListening n es
      → Follows n callback w
      → Holds (Follows n callback) (run_events n es w)
  unfolding run_events
  run_events-Follows n callback [] w survives stay f = f
  run_events-Follows n callback (e ∷ es) w survives stay f =
      let (stays, rest) = first e stay in
      option_cases (Holds (Follows n callback)) (handle n e w) _ _ (λ gone. tt)
        (λ v there. run_events-Follows n callback es v survives rest (
          subst (Holds (Follows n callback)) there
            (handle-Follows n callback e w survives stays f)))
    where
      first :
          (e : Event _ _)
          → StaysListening n (e ∷ es)
          → StaysListening n (e ∷ []) × StaysListening n es
      first (manager_acts a) (s, r) = ((s, tt), r)
      first notice_arrives r = (tt, r)

  -- A client process has registered its listener with the manager and has set a callback for
  -- pairings, while the manager shows no pairing. Whatever the manager then does, in whatever order
  -- and however late its notifications arrive, if texts come through binder unchanged, no CHECK
  -- fails and the listener does not die: once no notification is on its way, the callback has been
  -- run last with the pairing that the manager shows, if all its three texts are there, and with
  -- nothing, or not at all, if not.
  pub application_follows_pairing :
      {P A : Type 0} (listener callback : ℕ) (m : Manager) (es : List (Event P A)) (w : Watched)
      → member listener m.notification_listeners ≡ true
      → manager_pairing m ≡ no_pairing
      → ((t : String) → Survives t)
      → StaysListening listener es
      → run_events listener es
          (record { manager = m; world = watching listener callback; notices = [] })
        ≡ some w
      → w.notices ≡ []
      → last_told none w.world.effects ≡ presented (manager_pairing w.manager)
  application_follows_pairing listener callback m es w there unpaired survives stay ran idle =
      let f = subst (Holds (Follows listener callback)) ran (
        run_events-Follows listener callback es _ survives stay (record {
          service = record (make_service listener) { pairing_info_callback = some callback };
          there = refl;
          number = refl;
          calls_back = refl;
          session = inl (sym (ap (λ i. i.session_id) unpaired));
          mode = inl (sym (ap (λ i. i.pairing_mode) unpaired));
          code = inl (sym (ap (λ i. i.pairing_code) unpaired));
          listens = there;
          heard = refl;
        })) in
      f.heard
      ∙ ap presented (
          same_pairing f.service.pairing_info (manager_pairing w.manager)
            (quiet _ _ _ w.notices f.session idle) (quiet _ _ _ w.notices f.mode idle)
            (quiet _ _ _ w.notices f.code idle))
