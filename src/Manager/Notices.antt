-- ===== src/Manager/Notices.antt =====
-- buffet/manager.cc: what the listeners are told when settings and pairings change.
use mathlib.Core.List.{append_assoc, append-nil}
use rockchip_android_system.Prelude.{
  ℕ, ◌≡◌, ◌≢◌, refl, ◌∙◌, subst, List, [], ◌∷◌, ◌++◌, String, arith, eq_iff, if◌then◌else◌, ◌==◌,
  Bool-cases, inl, inr,
}
use rockchip_android_system.NotificationListener
use rockchip_android_system.Settings.{Settings}
use rockchip_android_system.Manager.{
  Manager, Prop, Effect, notify_change, get, set, cloud_id, device_id, device_name,
  device_description, device_location, oem_name, model_name, model_id, pairing_session_id,
  pairing_mode, pairing_code, update_value, notify_service_manager_change, on_config_changed,
  update_pairing, on_pairing_start, on_pairing_end,
}

-- An entry of a change: the member, its new value, and the number that tells of it.
abbrev pub Entry : Type 0
Entry = Prop × String × ℕ

-- The numbers of the entries whose value differs from what the manager holds.
abbrev pub changed_ids : List Entry → Manager → List ℕ
changed_ids [] m = []
changed_ids ((p, v, n) ∷ es) m = (if get p m == v then [] else n ∷ []) ++ changed_ids es m

-- The entries of a change of the settings, in the order of their notifications.
abbrev pub settings_entries : {P A : Type 0} → Settings P A → List Entry
settings_entries s =
    (cloud_id, s.cloud_id, NotificationListener.cloud_id)
    ∷ (device_id, s.device_id, NotificationListener.device_id)
    ∷ (device_name, s.name, NotificationListener.device_name)
    ∷ (device_description, s.description, NotificationListener.device_description)
    ∷ (device_location, s.location, NotificationListener.device_location)
    ∷ (oem_name, s.oem_name, NotificationListener.oem_name)
    ∷ (model_id, s.model_id, NotificationListener.model_id)
    ∷ (model_name, s.model_name, NotificationListener.model_name)
    ∷ []

abbrev pub pairing_entries : String → String → String → List Entry
pairing_entries session mode code =
    (pairing_session_id, session, NotificationListener.pairing_session_id)
    ∷ (pairing_mode, mode, NotificationListener.pairing_mode)
    ∷ (pairing_code, code, NotificationListener.pairing_code)
    ∷ []

set_self : (p : Prop) (m : Manager) → set p (get p m) m ≡ m
set_self cloud_id m = refl
set_self device_id m = refl
set_self device_name m = refl
set_self device_description m = refl
set_self device_location m = refl
set_self oem_name m = refl
set_self model_name m = refl
set_self model_id m = refl
set_self pairing_session_id m = refl
set_self pairing_mode m = refl
set_self pairing_code m = refl

set_same : (p : Prop) (v : String) (m : Manager) → get p m ≡ v → set p v m ≡ m
set_same p v m e = subst (λ w. set p w m ≡ m) e (set_self p m)

-- UpdateValue in one step: the member has the value, and the number is added if it had another.
update_value_lem :
    (p : Prop) (v : String) (n : ℕ) (m : Manager) (ids : List ℕ)
    → update_value p v n (m, ids) ≡ (set p v m, ids ++ (if get p m == v then [] else n ∷ []))
unfolding update_value
update_value_lem p v n m ids = elim (Bool-cases (get p m == v)) [
  | inl same ↦ rw (same, update_value, append-nil, set_same p v m ((eq_iff (get p m) v).0 same))
  | inr new ↦ rw (new, update_value)
]

pub on_config_changed_lem :
    {P A : Type 0} (s : Settings P A) (m : Manager)
    → on_config_changed s m
      ≡ notify_service_manager_change (changed_ids (settings_entries s) m) (record m {
        cloud_id = s.cloud_id;
        device_id = s.device_id;
        device_name = s.name;
        device_description = s.description;
        device_location = s.location;
        oem_name = s.oem_name;
        model_id = s.model_id;
        model_name = s.model_name;
      })
unfolding on_config_changed
on_config_changed_lem s m = simp (update_value_lem, append_assoc, append-nil)

-- What the listeners are told by a change with these numbers: each listener is told them once, the
-- one that registered first being told first, and nobody is told an empty change. The log has the
-- last effect first.
abbrev pub told : List ℕ → List ℕ → List Effect
told ids [] = []
told [] (l ∷ ls) = []
told (n ∷ ns) (l ∷ ls) = told (n ∷ ns) ls ++ (notify_change l (n ∷ ns) ∷ [])

abbrev pub set_pairing : String → String → String → Manager → Manager
set_pairing session mode code m = record m {
  pairing_session_id = session;
  pairing_mode = mode;
  pairing_code = code;
}

pub update_pairing_lem :
    (session mode code : String) (m : Manager)
    → update_pairing session mode code m
      ≡ notify_service_manager_change
          (changed_ids (pairing_entries session mode code) m)
          (set_pairing session mode code m)
unfolding update_pairing
update_pairing_lem session mode code m = simp (update_value_lem, append_assoc, append-nil)

notify-pairing_session_id :
    (ids : List ℕ) (m : Manager)
    → (notify_service_manager_change ids m).pairing_session_id ≡ m.pairing_session_id
unfolding notify_service_manager_change
notify-pairing_session_id [] m = refl
notify-pairing_session_id (n ∷ ns) m = refl

-- A pairing that starts stores its session, mode and code and tells the listeners which of them
-- are new; whatever pairing was shown before is overwritten. When that session ends next, the
-- three are cleared, and the listeners told which of them were not empty; the end of a different
-- session changes nothing.
pub pairing_lifetime :
    (session other mode code : String) (m : Manager)
    → session ≢ other
    → let started =
        notify_service_manager_change
          (changed_ids (pairing_entries session mode code) m)
          (record m { pairing_session_id = session; pairing_mode = mode; pairing_code = code }) in
      (on_pairing_start session mode code m ≡ started)
      × (on_pairing_end session started
          ≡ notify_service_manager_change
              (changed_ids (pairing_entries "" "" "") started)
              (record started { pairing_session_id = ""; pairing_mode = ""; pairing_code = "" }))
      × (on_pairing_end other started ≡ started)
unfolding on_pairing_start on_pairing_end
pairing_lifetime session other mode code m differ = (
  update_pairing_lem session mode code m,
  ended session (◌∙◌ (notify-pairing_session_id ids base) refl),
  other_ends (notify-pairing_session_id ids base) differ,
)
  where
    ids : List ℕ
    ids = changed_ids (pairing_entries session mode code) m

    base : Manager
    base = set_pairing session mode code m

    started : Manager
    started = notify_service_manager_change ids base

    ended :
        (s : String)
        → started.pairing_session_id ≡ s
        → (if started.pairing_session_id == s then update_pairing "" "" "" started else started)
          ≡ notify_service_manager_change
              (changed_ids (pairing_entries "" "" "") started)
              (set_pairing "" "" "" started)
    ended s e = rw ((eq_iff started.pairing_session_id s).1 e) (update_pairing_lem "" "" "" started)

    other_ends :
        started.pairing_session_id ≡ session
        → session ≢ other
        → (if started.pairing_session_id == other then update_pairing "" "" "" started else started)
          ≡ started
    other_ends e d = ground (arith, eq_iff started.pairing_session_id other)
