-- ===== src/Connection/Dispatch.antt =====
-- libweaved/service.cc: which handler a command reaches.
use rockchip_android_system.Prelude.{
  ℕ, ◌≡◌, ◌≢◌, ◌⊎◌, inl, inr, refl, ap, subst, true, false, Option, none, some, List, [], ◌∷◌, ◌++◌,
  String, arith, eq_refl, eq_iff, ◌==◌, ◌&&◌, Bool-cases, if_cases,
}
use rockchip_android_system.Connection.{
  CommandHandlerEntry, ServiceImpl, Effect, emit, run_command_callback, World, lock,
}
use rockchip_android_system.Connection.Calls.{
  full_name, add_command_handler, find_handler, on_command, client_on_command,
}

-- No entry of the list is for the command: each has another component or another name.
abbrev pub Avoids : String → String → List CommandHandlerEntry → Type 0
Avoids component name [] = Unit
Avoids component name (e ∷ es) =
    ((e.component ≢ component) ⊎ (e.command_name ≢ name)) × Avoids component name es

-- The callback `k` is that of an entry for the command, before which the list has none.
pub record First (component name : String) (es : List CommandHandlerEntry) (k : ℕ) : Type 0 where
  pub before : List CommandHandlerEntry
  pub entry : CommandHandlerEntry
  pub after : List CommandHandlerEntry
  pub parts : es ≡ before ++ entry ∷ after
  pub same_component : entry.component ≡ component
  pub same_name : entry.command_name ≡ name
  pub same_callback : entry.callback ≡ k
  pub none_before : Avoids component name before

First-cons :
    (component name : String) (e : CommandHandlerEntry) (es : List CommandHandlerEntry) (k : ℕ)
    → (e.component ≢ component) ⊎ (e.command_name ≢ name)
    → First component name es k
    → First component name (e ∷ es) k
First-cons component name e es k other f = record {
  before = e ∷ f.before;
  entry = f.entry;
  after = f.after;
  parts = ap (λ l. e ∷ l) f.parts;
  same_component = f.same_component;
  same_name = f.same_name;
  same_callback = f.same_callback;
  none_before = (other, f.none_before);
}

-- The loop finds nothing where no entry is for the command, and else the first that is.
Found : String → String → List CommandHandlerEntry → Option ℕ → Type 0
Found component name es none = Avoids component name es
Found component name es (some k) = First component name es k

Found-cons :
    (component name : String) (e : CommandHandlerEntry) (es : List CommandHandlerEntry)
    (o : Option ℕ)
    → (e.component ≢ component) ⊎ (e.command_name ≢ name)
    → Found component name es o
    → Found component name (e ∷ es) o
unfolding Found
Found-cons component name e es none other f = (other, f)
Found-cons component name e es (some k) other f = First-cons component name e es k other f

differs :
    (component name : String) (e : CommandHandlerEntry)
    → (e.component == component && e.command_name == name) ≡ false
    → (e.component ≢ component) ⊎ (e.command_name ≢ name)
differs component name e h = elim (Bool-cases (e.component == component)) [
  | inl same ↦ inr (λ q. ground (arith, h, same, (eq_iff e.command_name name).1 q))
  | inr new ↦ inl (λ q. ground (arith, new, (eq_iff e.component component).1 q))
]

find_handler-Found :
    (component name : String) (es : List CommandHandlerEntry)
    → Found component name es (find_handler component name es)
unfolding find_handler Found
find_handler-Found component name [] = tt
find_handler-Found component name (e ∷ es) =
    if_cases (Found component name (e ∷ es)) (e.component == component && e.command_name == name) _
      _
      (λ h. record {
        before = [];
        entry = e;
        after = es;
        parts = refl;
        same_component = (eq_iff e.component component).0 (ground (arith, h));
        same_name = (eq_iff e.command_name name).0 (ground (arith, h));
        same_callback = refl;
        none_before = tt;
      })
      (λ h.
        Found-cons component name e es (find_handler component name es) (differs component name e h)
          (find_handler-Found component name es))

-- The handler that a list gives first.
abbrev first : Option ℕ → ℕ → ℕ
first none callback = callback
first (some earlier) callback = earlier

find_handler-append :
    (component name : String) (es : List CommandHandlerEntry) (callback : ℕ)
    → find_handler component name
        (es ++ (record { component = component; command_name = name; callback = callback } ∷ []))
      ≡ some (first (find_handler component name es) callback)
unfolding find_handler
find_handler-append component name [] callback = ground (arith, eq_refl component, eq_refl name)
find_handler-append component name (e ∷ es) callback =
    ground (arith, find_handler-append component name es callback)

find_handler-other :
    (component name other_component other_name : String) (es : List CommandHandlerEntry)
    (callback : ℕ)
    → (component ≢ other_component) ⊎ (name ≢ other_name)
    → find_handler other_component other_name
        (es ++ (record { component = component; command_name = name; callback = callback } ∷ []))
      ≡ find_handler other_component other_name es
unfolding find_handler
find_handler-other component name c n [] callback other =
    ground (arith, other, eq_iff component c, eq_iff name n)
find_handler-other component name c n (e ∷ es) callback other =
    ground (arith, find_handler-other component name c n es callback other)

-- The handler `k` is the first of the list for the command, or the list has none and it is
-- `callback`.
abbrev pub Chosen : String → String → List CommandHandlerEntry → ℕ → ℕ → Type 0
Chosen component name es callback k =
    First component name es k ⊎ (Avoids component name es × (k ≡ callback))

first-Chosen :
    (component name : String) (es : List CommandHandlerEntry) (callback : ℕ) (o : Option ℕ)
    → Found component name es o
    → Chosen component name es callback (first o callback)
unfolding Found
first-Chosen component name es callback none f = inr (f, refl)
first-Chosen component name es callback (some k) f = inl f

pub added-Chosen :
    (component trait_name name : String) (callback c : ℕ) (s : ServiceImpl) (w w' : World)
    → w.service ≡ some s
    → add_command_handler component trait_name name callback true s w ≡ some w'
    → (k : ℕ) × Chosen component (full_name trait_name name) s.command_handlers callback k
      × ((client_on_command s.number component (full_name trait_name name) c w').effects
          ≡ w'.effects ++ (run_command_callback k c ∷ []))
unfolding add_command_handler client_on_command on_command lock
added-Chosen component trait_name name callback c s w w' there e =
    let full = full_name trait_name name in
    let found = find_handler component full s.command_handlers in
    (
      first found callback,
      first-Chosen component full s.command_handlers callback found
          (find_handler-Found component full s.command_handlers),
      ground (arith, find_handler-append component full s.command_handlers callback),
    )

-- What a command does for which the list `es` decides: it runs the first handler for it, once, or
-- nothing if the list has none.
abbrev pub Dispatched :
    String → String → List CommandHandlerEntry → ℕ → List Effect → List Effect → Type 0
Dispatched component name es c earlier later =
    (Avoids component name es × (later ≡ earlier))
    ⊎ ((k : ℕ) × First component name es k × (later ≡ earlier ++ (run_command_callback k c ∷ [])))

ran : Option ℕ → ℕ → World → World
ran none c w = w
ran (some callback) c w = emit (run_command_callback callback c) w

Found-Dispatched :
    (component name : String) (es : List CommandHandlerEntry) (c : ℕ) (o : Option ℕ) (w : World)
    → Found component name es o
    → Dispatched component name es c w.effects (ran o c w).effects
unfolding Found ran
Found-Dispatched component name es c none w f = inl (f, refl)
Found-Dispatched component name es c (some k) w f = inr (k, f, refl)

other-Dispatched :
    (component trait_name name other_component other_name : String) (callback c : ℕ)
    (s : ServiceImpl) (w w' : World)
    → w.service ≡ some s
    → (component ≢ other_component) ⊎ (full_name trait_name name ≢ other_name)
    → add_command_handler component trait_name name callback true s w ≡ some w'
    → Dispatched other_component other_name s.command_handlers c w'.effects
        (client_on_command s.number other_component other_name c w').effects
unfolding add_command_handler client_on_command on_command lock ran
other-Dispatched component trait_name name oc on callback c s w w' there differ e =
    let full = full_name trait_name name in
    let es = s.command_handlers in
    let found = find_handler oc on es in
    subst (Dispatched oc on es c w'.effects)
      (ground (arith, find_handler-other component full oc on es callback differ))
      (Found-Dispatched oc on es c found w' (find_handler-Found oc on es))

-- After AddCommandHandler has succeeded on the subscription's instance, a command that comes to
-- the instance for that component and full name runs one handler, once: that of the first entry
-- with exactly that component and full name that was registered before, or the new one if there
-- was none. A command that differs in the component or in the full name runs, once, the handler of
-- the first entry registered before with exactly its component and name, and nothing if there is
-- none.
pub add_command_handler-on_command :
    (component trait_name name other_component other_name : String) (callback c : ℕ)
    (s : ServiceImpl) (w w' : World)
    → w.service ≡ some s
    → (component ≢ other_component) ⊎ (full_name trait_name name ≢ other_name)
    → add_command_handler component trait_name name callback true s w ≡ some w'
    → ((k : ℕ) × Chosen component (full_name trait_name name) s.command_handlers callback k
        × ((client_on_command s.number component (full_name trait_name name) c w').effects
            ≡ w'.effects ++ (run_command_callback k c ∷ [])))
      × Dispatched other_component other_name s.command_handlers c w'.effects
          (client_on_command s.number other_component other_name c w').effects
add_command_handler-on_command component trait_name name oc on callback c s w w' there differ e = (
  added-Chosen component trait_name name callback c s w w' there e,
  other-Dispatched component trait_name name oc on callback c s w w' there differ e,
)
