-- ===== src/Connection/Settled.antt =====
-- libweaved/service.cc: how far the instance has come on its way to the daemon's service object.
use rockchip_android_system.Prelude.{
  ℕ, zero, suc, ◌≡◌, refl, ◌||◌, ◌&&◌, Bool, true, false, some, List, [], ◌∷◌, ◌++◌, arith,
  Option-cases, inl, inr, nat_eq, is_some,
}
use rockchip_android_system.Connection.{
  ServiceImpl, Task, try_connecting, try_connecting_in_a_second, reconnect_on_service_disconnection,
  World, lock, Effect, connect_client,
}
use rockchip_android_system.Connection.Life.{take_task}

abbrev pub task_number : Task → ℕ
task_number (try_connecting n) = n
task_number (try_connecting_in_a_second n) = n
task_number (reconnect_on_service_disconnection n) = n

-- A task of the instance `n` is in the queue.
abbrev pub awaits : ℕ → List Task → Bool
awaits n [] = false
awaits n (t ∷ ts) = nat_eq (task_number t) n || awaits n ts

pub awaits-post :
    (n : ℕ) (ts : List Task) (t : Task)
    → awaits n (ts ++ (t ∷ [])) ≡ (awaits n ts || nat_eq (task_number t) n)
awaits-post n [] t = ground arith
awaits-post n (u ∷ ts) t = ground (arith, awaits-post n ts t)

pub take_task-awaits :
    (place n : ℕ) (ts rest : List Task) (t : Task)
    → take_task place ts ≡ some (t, rest)
    → awaits n ts ≡ (nat_eq (task_number t) n || awaits n rest)
unfolding take_task
take_task-awaits place n [] rest t e = ground (arith, e)
take_task-awaits zero n (u ∷ ts) rest t e = ground (arith, e)
take_task-awaits (suc place) n (u ∷ ts) rest t e = elim (Option-cases (take_task place ts)) [
  | inl gone ↦ ground (arith, e, gone)
  | inr ((v, vs), there) ↦ ground (arith, e, there, take_task-awaits place n ts vs v there)
]

-- A call of the daemon's connect, with the number of the instance.
abbrev pub connect_of : Effect → List ℕ
connect_of (connect_client binder n) = n ∷ []
connect_of _ = []

-- The instances that have called the daemon's connect, one entry for each call.
unfoldable pub connects_of : List Effect → List ℕ
connects_of [] = []
connects_of (e ∷ es) = connect_of e ++ connects_of es

abbrev pub has : ℕ → List ℕ → Bool
has n [] = false
has n (m ∷ ms) = nat_eq m n || has n ms

pub has-append : (n : ℕ) (xs ys : List ℕ) → has n (xs ++ ys) ≡ (has n xs || has n ys)
has-append n [] ys = refl
has-append n (x ∷ xs) ys = ground (arith, has-append n xs ys)

-- More effects, of which the new one may be a call of connect.
pub has-emit :
    (n : ℕ) (es : List Effect) (e : Effect)
    → has n (connects_of (es ++ (e ∷ []))) ≡ (has n (connects_of es) || has n (connect_of e))
unfolding connects_of
has-emit n [] e = ground (arith, has-append n (connect_of e) [])
has-emit n (x ∷ es) e = ground (
  arith,
  has-append n (connect_of x) (connects_of (es ++ (e ∷ []))),
  has-append n (connect_of x) (connects_of es),
  has-emit n es e,
)

-- The instance has a task in the queue, or it has found the daemon, and then its call of connect is
-- among the effects, or under way elsewhere, as `owed` tells, or it has its service object.
abbrev pub settled : (ℕ → Bool) → ServiceImpl → List Task → List Effect → Bool
settled owed s tasks effects =
    awaits s.number tasks
    || (is_some s.weave_service_manager
        && (owed s.number || has s.number (connects_of effects) || is_some s.weave_service))

abbrev pub Settled : (ℕ → Bool) → World → Type 0
Settled owed w = (s : ServiceImpl) → w.service ≡ some s → settled owed s w.tasks w.effects ≡ true

-- The same while one task, of the instance `n`, has been taken from the queue.
abbrev pub SettledBut : (ℕ → Bool) → ℕ → World → Type 0
SettledBut owed n w =
    (s : ServiceImpl)
    → w.service ≡ some s
    → (nat_eq n s.number || settled owed s w.tasks w.effects) ≡ true

pub lock_eq :
    (n : ℕ) (w : World) (s : ServiceImpl)
    → lock n w ≡ some s
    → (w.service ≡ some s) × (s.number ≡ n)
unfolding lock
lock_eq n w s e = elim (Option-cases w.service) [
  | inl gone ↦ ground (arith, e, gone)
  | inr (t, there) ↦ ground (arith, e, there)
]

pub more_effects :
    (owed : ℕ → Bool) (s : ServiceImpl) (tasks : List Task) (es : List Effect) (e : Effect)
    → settled owed s tasks es ≡ true
    → settled owed s tasks (es ++ (e ∷ [])) ≡ true
more_effects owed s tasks es e h = ground (arith, h, has-emit s.number es e)

pub more_tasks :
    (owed : ℕ → Bool) (s : ServiceImpl) (ts : List Task) (es : List Effect) (t : Task)
    → settled owed s ts es ≡ true
    → settled owed s (ts ++ (t ∷ [])) es ≡ true
more_tasks owed s ts es t h = ground (arith, h, awaits-post s.number ts t)
