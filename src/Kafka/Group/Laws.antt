-- ===== src/Kafka/Group/Laws.antt =====
-- kafka/consumer.go: what holds whenever Start returns, and when it cannot return.
use lunaship.Base.{ℕ, true, ◌≡◌, refl, ◌≢◌, ◌⊎◌, inl, inr, In, arith, subst}
use lunaship.Kafka.Group.{
  Loop, joining, consuming, checking, returned, panicked, awaiting, stopping, done, Group, Step,
  setup, consume_ends, consume_ends_early, consume_closed, consume_fails, check_ends,
  check_continues, read_ready, receive_ready, cancel, stop, finish, Reach, here, next,
}

-- What holds in every state: a caller that stops has cancelled, one that is done has waited for the
-- goroutine and closed the client, and only such a one has.
pub record IsOrderly (g : Group) : Type 0 where
  pub stops : g.caller ≡ stopping → g.cancelled ≡ true
  pub waits : g.caller ≡ done → (g.loop ≡ returned) × (g.client_closed ≡ true)
  pub closes : g.client_closed ≡ true → g.caller ≡ done

Step-IsOrderly : {g h : Group} → Step g h → IsOrderly g → IsOrderly h
Step-IsOrderly (setup e) o = ground arith
Step-IsOrderly (consume_ends e) o = ground arith
Step-IsOrderly (consume_ends_early e) o = ground arith
Step-IsOrderly (consume_closed e) o = ground arith
Step-IsOrderly (consume_fails e) o = ground arith
Step-IsOrderly (check_ends e c) o = ground arith
Step-IsOrderly (check_continues e c) o = ground arith
Step-IsOrderly (read_ready e) o = ground arith
Step-IsOrderly (receive_ready channel e i) o = ground arith
Step-IsOrderly cancel o = ground arith
Step-IsOrderly (stop e) o = ground arith
Step-IsOrderly (finish e r) o = ground arith

-- However the goroutine, the caller, the group and the signals interleave: Start returns only when its
-- goroutine has ended and the client is closed, and the client is not closed before.
pub Reach-IsOrderly : {g h : Group} → IsOrderly g → Reach g h → IsOrderly h
Reach-IsOrderly o here = o
Reach-IsOrderly o (next r s) = Step-IsOrderly s (Reach-IsOrderly o r)

pub Loop-cases :
    (l : Loop) → (l ≡ joining) ⊎ (l ≡ consuming) ⊎ (l ≡ checking) ⊎ (l ≡ returned) ⊎ (l ≡ panicked)
Loop-cases joining = inl refl
Loop-cases consuming = inr (inl refl)
Loop-cases checking = inr (inr (inl refl))
Loop-cases returned = inr (inr (inr (inl refl)))
Loop-cases panicked = inr (inr (inr (inr refl)))

-- The goroutine has returned, and the caller waits for a channel that is not closed.
abbrev pub IsHung : Group → Type 0
IsHung g = (g.loop ≡ returned) × (n : ℕ) × (g.caller ≡ awaiting n) × ¬ (In n g.ready)

Step-IsHung : {g h : Group} → Step g h → IsHung g → IsHung h
Step-IsHung (setup e) (l, n, c, m) = absurd (ground arith)
Step-IsHung (consume_ends e) (l, n, c, m) = absurd (ground arith)
Step-IsHung (consume_ends_early e) (l, n, c, m) = absurd (ground arith)
Step-IsHung (consume_closed e) (l, n, c, m) = absurd (ground arith)
Step-IsHung (consume_fails e) (l, n, c, m) = absurd (ground arith)
Step-IsHung (check_ends e x) (l, n, c, m) = absurd (ground arith)
Step-IsHung (check_continues e x) (l, n, c, m) = absurd (ground arith)
Step-IsHung (read_ready e) (l, n, c, m) = absurd (ground arith)
Step-IsHung {g} (receive_ready channel e i) (l, n, c, m) =
    absurd (m (subst (λ k. In k g.ready) (ground arith) i))
Step-IsHung cancel h = h
Step-IsHung (stop e) (l, n, c, m) = absurd (ground arith)
Step-IsHung (finish e r) (l, n, c, m) = absurd (ground arith)

Reach-IsHung : {g h : Group} → IsHung g → Reach g h → IsHung h
Reach-IsHung hung here = hung
Reach-IsHung hung (next r s) = Step-IsHung s (Reach-IsHung hung r)

-- The group after the goroutine has returned because Consume has reported a closed group.
abbrev pub closed_early : Group → Group
closed_early g = record g { loop = returned }

-- If Consume reports a closed group before the session's Setup while the caller waits for the channel
-- that Setup would close, which is a step of the group, Start does not return in any state that can
-- follow, not even when its context is cancelled.
pub early_close-hangs :
    (g h : Group)
    → g.loop ≡ joining
    → g.caller ≡ awaiting g.channel
    → ¬ (In g.channel g.ready)
    → Reach (closed_early g) h
    → Step g (closed_early g) × (h.caller ≢ done)
early_close-hangs g h l c m r = (
  consume_closed (inl l),
  λ e. let (l', n, c', m') = Reach-IsHung (refl, g.channel, c, m) r in ground arith,
)
