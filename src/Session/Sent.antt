-- ===== src/Session/Sent.antt =====
-- buffet/manager.cc: the notifications that a step of the manager sends when the pairing changes.
use rockchip_android_system.Prelude.{
  ℕ, ◌≡◌, ◌⊎◌, ◌||◌, refl, sym, ap, ◌∙◌, subst, Bool, true, false, List, [], ◌∷◌, ◌++◌, String,
  arith, Bool-cases, inl, inr, nat_eq, nat_eq_iff, eq_iff, ◌==◌, if◌then◌else◌,
}
use rockchip_android_system.NotificationListener
use rockchip_android_system.Manager.{
  Manager, Effect, pairing_session_id, pairing_mode, pairing_code, notify_change, notify_all,
  notify_service_manager_change, update_pairing, get,
}
use rockchip_android_system.Manager.Notices.{
  Entry, changed_ids, pairing_entries, set_pairing, update_pairing_lem,
}
use rockchip_android_system.Manager.Shown.{shown, Kept, notify-Kept}
use rockchip_android_system.Session.Watched.{notices_for}

abbrev pub member : ℕ → List ℕ → Bool
member k [] = false
member k (i ∷ is) = nat_eq i k || member k is

-- A notification of the number is on its way.
abbrev pub waiting : ℕ → List (List ℕ) → Bool
waiting k [] = false
waiting k (ids ∷ rest) = member k ids || waiting k rest

pub waiting-append :
    (k : ℕ) (xs ys : List (List ℕ)) → waiting k (xs ++ ys) ≡ (waiting k xs || waiting k ys)
waiting-append k [] ys = refl
waiting-append k (x ∷ xs) ys = ground (arith, waiting-append k xs ys)

waiting-notify_all :
    (k n : ℕ) (ids ls : List ℕ) (log : List Effect)
    → waiting k (notices_for n (notify_all ids ls log))
      ≡ (waiting k (notices_for n log) || (if member k ids then member n ls else false))
waiting-notify_all k n ids [] log = ground arith
waiting-notify_all k n ids (l ∷ ls) log = ground (
  arith,
  waiting-notify_all k n ids ls (notify_change l ids ∷ log),
  waiting-append k (notices_for n log) (ids ∷ []),
  waiting-append k (notices_for n log) [],
)

-- The text is the manager's, or a notification of its number is on its way.
abbrev pub InStep : ℕ → String → String → List (List ℕ) → Type 0
InStep k mine theirs notices = (mine ≡ theirs) ⊎ (waiting k notices ≡ true)

-- What a step of the manager with an empty log does: it still has the listener, and of every text
-- of the pairing that is not as it was a notification is sent to the listener.
abbrev pub Tells : ℕ → Manager → Manager → Type 0
Tells n m m' =
    let out = notices_for n m'.log in
    InStep NotificationListener.pairing_session_id m.pairing_session_id m'.pairing_session_id out
    × InStep NotificationListener.pairing_mode m.pairing_mode m'.pairing_mode out
    × InStep NotificationListener.pairing_code m.pairing_code m'.pairing_code out
    × (member n m'.notification_listeners ≡ true)

pub Kept-Tells :
    (n : ℕ) (m m' : Manager) → member n m.notification_listeners ≡ true → Kept m m' → Tells n m m'
Kept-Tells n m m' there k = (
  inl (sym (ap (λ s. s.0.0) k)),
  inl (sym (ap (λ s. s.0.1) k)),
  inl (sym (ap (λ s. s.0.2) k)),
  ap (λ s. member n s.1) k ∙ there,
)

notify-waiting :
    (k n : ℕ) (ids : List ℕ) (m : Manager)
    → m.log ≡ []
    → waiting k (notices_for n (notify_service_manager_change ids m).log)
      ≡ (if member k ids then member n m.notification_listeners else false)
unfolding notify_service_manager_change
notify-waiting k n [] m empty = ap (λ log. waiting k (notices_for n log)) empty
notify-waiting k n (i ∷ is) m empty = ground (
  arith,
  waiting-notify_all k n (i ∷ is) m.notification_listeners m.log,
  ap (λ log. waiting k (notices_for n log)) empty,
)

member-append : (k : ℕ) (is js : List ℕ) → member k (is ++ js) ≡ (member k is || member k js)
member-append k [] js = refl
member-append k (i ∷ is) js = ground (arith, member-append k is js)

-- A value is what it was, or its number is told.
abbrev Compared : Entry → List Entry → Manager → Type 0
Compared (p, v, k) es m = (get p m ≡ v) ⊎ (member k (changed_ids es m) ≡ true)

Compared-here : (e : Entry) (es : List Entry) (m : Manager) → Compared e (e ∷ es) m
Compared-here (p, v, k) es m = elim (Bool-cases (get p m == v)) [
  | inl same ↦ inl ((eq_iff (get p m) v).0 same)
  | inr other ↦ inr (
      ground (
        arith,
        other,
        member-append k (if get p m == v then [] else k ∷ []) (changed_ids es m),
        nat_eq_iff k k,
      ))
]

Compared-there :
    (e f : Entry) (es : List Entry) (m : Manager) → Compared e es m → Compared e (f ∷ es) m
Compared-there e f es m (inl same) = inl same
Compared-there (p, v, k) (q, w, j) es m (inr told) =
    inr (
      ground
        (arith, told, member-append k (if get q m == w then [] else j ∷ []) (changed_ids es m)))

-- A change of the pairing, as the listener is told of it.
notified :
    (n k : ℕ) (ids : List ℕ) (base : Manager) (old new : String)
    → base.log ≡ []
    → member n base.notification_listeners ≡ true
    → (old ≡ new) ⊎ (member k ids ≡ true)
    → InStep k old new (notices_for n (notify_service_manager_change ids base).log)
notified n k ids base old new empty there (inl same) = inl same
notified n k ids base old new empty there (inr among) =
    inr (ground (arith, notify-waiting k n ids base empty, among, there))

pub update_pairing-Tells :
    (n : ℕ) (session mode code : String) (m : Manager)
    → m.log ≡ []
    → member n m.notification_listeners ≡ true
    → Tells n m (update_pairing session mode code m)
update_pairing-Tells n session mode code m empty there =
    subst (Tells n m) (sym (update_pairing_lem session mode code m)) (
      step NotificationListener.pairing_session_id (λ s. s.0.0) m.pairing_session_id
          (Compared-here session_entry (mode_entry ∷ code_entry ∷ []) m),
      step NotificationListener.pairing_mode (λ s. s.0.1) m.pairing_mode
          (Compared-there mode_entry session_entry (mode_entry ∷ code_entry ∷ []) m
            (Compared-here mode_entry (code_entry ∷ []) m)),
      step NotificationListener.pairing_code (λ s. s.0.2) m.pairing_code
          (Compared-there code_entry session_entry (mode_entry ∷ code_entry ∷ []) m (
            Compared-there code_entry mode_entry (code_entry ∷ []) m
              (Compared-here code_entry [] m))),
      ap (λ s. member n s.1) kept ∙ there,
    )
  where
    session_entry : Entry
    session_entry = (pairing_session_id, session, NotificationListener.pairing_session_id)

    mode_entry : Entry
    mode_entry = (pairing_mode, mode, NotificationListener.pairing_mode)

    code_entry : Entry
    code_entry = (pairing_code, code, NotificationListener.pairing_code)

    ids : List ℕ
    ids = changed_ids (pairing_entries session mode code) m

    base : Manager
    base = set_pairing session mode code m

    kept : Kept base (notify_service_manager_change ids base)
    kept = notify-Kept ids base

    out : List (List ℕ)
    out = notices_for n (notify_service_manager_change ids base).log

    step :
        (k : ℕ) (part : (String × String × String) × List ℕ → String) (old : String)
        → (old ≡ part (shown base)) ⊎ (member k ids ≡ true)
        → InStep k old (part (shown (notify_service_manager_change ids base))) out
    step k part old d =
        subst (λ v. InStep k old v out) (sym (ap part kept))
          (notified n k ids base old (part (shown base)) empty there d)
