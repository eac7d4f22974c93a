-- ===== src/Kafka/Group/Ends.antt =====
-- kafka/consumer.go: the end of Start, once its context is done or a signal has come.
use lunaship.Base.{ℕ, suc, ◌+◌, ◌≤◌, ◌<◌, true, ◌≡◌, ◌⊎◌, inl, inr, arith, ap}
use lunaship.Kafka.Group.{
  Loop, joining, consuming, checking, returned, panicked, Caller, stopping, done, Group, started,
  Step, setup, consume_ends, consume_ends_early, consume_closed, consume_fails, check_ends,
  check_continues, read_ready, receive_ready, cancel, stop, finish, Reach,
}
use lunaship.Kafka.Group.Laws.{IsOrderly, Loop-cases, Reach-IsOrderly}

-- The step is one of the goroutine, the group or the caller: not one that cancels the context from outside.
abbrev pub IsOwn : {g h : Group} → Step g h → Type 0
IsOwn (setup e) = Unit
IsOwn (consume_ends e) = Unit
IsOwn (consume_ends_early e) = Unit
IsOwn (consume_closed e) = Unit
IsOwn (consume_fails e) = Unit
IsOwn (check_ends e c) = Unit
IsOwn (check_continues e c) = Unit
IsOwn (read_ready e) = Unit
IsOwn (receive_ready channel e i) = Unit
IsOwn cancel = ⊥
IsOwn (stop e) = Unit
IsOwn (finish e r) = Unit

-- So many own steps lead from the first state to the second one.
pub data OwnRun (g : Group) : ℕ → Group → Type 0 where
  at_once : OwnRun g 0 g
  then : {n : ℕ} {h k : Group} → OwnRun g n h → (s : Step h k) → IsOwn s → OwnRun g (suc n) k

-- Some own step is possible.
abbrev pub CanMove : Group → Type 0
CanMove g = (h : Group) × (s : Step g h) × IsOwn s

-- How many own steps are left at most.
abbrev rank_of : Loop → ℕ
rank_of joining = 4
rank_of consuming = 3
rank_of checking = 2
rank_of returned = 1
rank_of panicked = 0

abbrev rank : Caller → Loop → ℕ
rank stopping loop = rank_of loop
rank done loop = 0
rank _ loop = 5

-- The caller waits for the goroutine under a cancelled context, or Start has returned.
abbrev IsStopping : Group → Type 0
IsStopping g =
    ((g.caller ≡ stopping) × (g.cancelled ≡ true)) ⊎ ((g.caller ≡ done) × (g.loop ≡ returned))

Step-IsStopping :
    {g h : Group} (s : Step g h)
    → IsOwn s
    → IsStopping g
    → IsStopping h × (rank h.caller h.loop < rank g.caller g.loop)
Step-IsStopping (setup e) own h = ground arith
Step-IsStopping (consume_ends e) own h = ground arith
Step-IsStopping (consume_ends_early e) own h = ground arith
Step-IsStopping (consume_closed e) own h = ground arith
Step-IsStopping (consume_fails e) own h = ground arith
Step-IsStopping (check_ends e c) own h = ground arith
Step-IsStopping (check_continues e c) own h = ground arith
Step-IsStopping (read_ready e) own h = ground arith
Step-IsStopping (receive_ready channel e i) own h = ground arith
Step-IsStopping cancel own h = elim own [ ]
Step-IsStopping (stop e) own h = ground arith
Step-IsStopping (finish e r) own h = ground arith

OwnRun-IsStopping :
    {g h : Group} {n : ℕ}
    → OwnRun g n h
    → IsStopping g
    → IsStopping h × (n + rank h.caller h.loop ≤ rank g.caller g.loop)
OwnRun-IsStopping at_once start = (start, omega arith)
OwnRun-IsStopping (then r s own) start =
    let (still, count) = OwnRun-IsStopping r start in
    let (after, less) = Step-IsStopping s own still in (after, omega (arith, count, less))

-- A state in which the caller waits is no dead end.
stopping-CanMove :
    (g : Group) → g.caller ≡ stopping → g.cancelled ≡ true → (g.loop ≡ panicked) ⊎ CanMove g
stopping-CanMove g c x = elim (Loop-cases g.loop) [
  | inl l ↦ inr (_, setup l, tt)
  | inr (inl l) ↦ inr (_, consume_ends l, tt)
  | inr (inr (inl l)) ↦ inr (_, check_ends l x, tt)
  | inr (inr (inr (inl l))) ↦ inr (_, finish c l, tt)
  | inr (inr (inr (inr l))) ↦ inl l
]

IsStopping-cases :
    (g : Group) → IsStopping g → (g.caller ≡ done) ⊎ ((g.loop ≡ panicked) ⊎ CanMove g)
IsStopping-cases g (inl (c, x)) = inr (stopping-CanMove g c x)
IsStopping-cases g (inr (d, l)) = inl d

started-IsOrderly : IsOrderly started
started-IsOrderly = ground arith

rank_of-bound : (l : Loop) → rank_of l ≤ 4
rank_of-bound l = ground arith

-- Once the caller of a Start has left its loop on the signals and the context, at most four steps of the
-- goroutine, the group and the caller can follow, in whatever order they come; and wherever such a run
-- stands, Start has returned, the goroutine has panicked, or another such step is possible.
pub stopping-ends :
    (g h : Group) (n : ℕ)
    → Reach started g
    → g.caller ≡ stopping
    → OwnRun g n h
    → (n ≤ 4) × ((h.caller ≡ done) ⊎ ((h.loop ≡ panicked) ⊎ CanMove h))
stopping-ends g h n r c run =
    let cancelled = (Reach-IsOrderly started-IsOrderly r).stops c in
    let (still, count) = OwnRun-IsStopping run (inl (c, cancelled)) in
    let first : rank g.caller g.loop ≡ rank_of g.loop = ap (λ (k : Caller). rank k g.loop) c in
    (omega (arith, count, first, rank_of-bound g.loop), IsStopping-cases h still)
