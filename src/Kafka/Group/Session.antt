-- ===== src/Kafka/Group/Session.antt =====
-- kafka/consumer.go: Setup and Cleanup of a session. A second close of one channel would panic.
use lunaship.Base.{
  ℕ, suc, ◌≤◌, Bool, true, false, Option, none, some, List, [], ◌∷◌, ◌≡◌, refl, arith, eqb,
  if◌then◌else◌, All,
}
use lunaship.Kafka.Group.{
  joining, consuming, Group, started, Step, setup, consume_ends, consume_ends_early, consume_closed,
  consume_fails, check_ends, check_continues, read_ready, receive_ready, cancel, stop, finish,
  Reach, here, next,
}

unfoldable pub is_closed : ℕ → List ℕ → Bool
is_closed channel [] = false
is_closed channel (k ∷ ks) = let rest = is_closed channel ks in if eqb k channel then true else rest

-- Setup, which the client calls once the session has begun; `none` is the panic of the second close.
unfoldable pub set_up : Group → Option Group
set_up g = elim (is_closed g.channel g.ready) [
  | true ↦ none
  | false ↦ some (record g { loop = consuming; ready = g.channel ∷ g.ready })
]

-- Cleanup
unfoldable pub clean_up : Group → Group
clean_up g = g

-- The closed channels have been made, and the one of a session that has not begun is open.
pub record IsFresh (g : Group) : Type 0 where
  pub made : All (λ k. k ≤ g.channel) g.ready
  pub open_channel : g.loop ≡ joining → is_closed g.channel g.ready ≡ false

not_made-open : (n : ℕ) (ks : List ℕ) → All (λ k. k ≤ n) ks → is_closed (suc n) ks ≡ false
unfolding is_closed
not_made-open n [] h = refl
not_made-open n (k ∷ ks) h = ground (arith, not_made-open n ks h.1, h.0)

made-suc : (n : ℕ) (ks : List ℕ) → All (λ k. k ≤ n) ks → All (λ k. k ≤ suc n) ks
made-suc n [] h = tt
made-suc n (k ∷ ks) h = (omega (arith, h.0), made-suc n ks h.1)

Step-IsFresh : {g h : Group} → Step g h → IsFresh g → IsFresh h
Step-IsFresh (setup e) h = record { made = (omega arith, h.made); open_channel = λ l. cc }
Step-IsFresh (consume_ends e) h = record { made = h.made; open_channel = λ l. cc }
Step-IsFresh (consume_ends_early e) h = record { made = h.made; open_channel = λ l. cc }
Step-IsFresh (consume_closed e) h = record { made = h.made; open_channel = λ l. cc }
Step-IsFresh (consume_fails e) h = record { made = h.made; open_channel = λ l. cc }
Step-IsFresh (check_ends e x) h = record { made = h.made; open_channel = λ l. cc }
Step-IsFresh {g} (check_continues e x) h = record {
  made = made-suc g.channel g.ready h.made;
  open_channel = λ l. not_made-open g.channel g.ready h.made;
}
Step-IsFresh (read_ready e) h = record { made = h.made; open_channel = h.open_channel }
Step-IsFresh (receive_ready channel e i) h = record { made = h.made; open_channel = h.open_channel }
Step-IsFresh cancel h = record { made = h.made; open_channel = h.open_channel }
Step-IsFresh (stop e) h = record { made = h.made; open_channel = h.open_channel }
Step-IsFresh (finish e r) h = record { made = h.made; open_channel = h.open_channel }

Reach-IsFresh : {g h : Group} → IsFresh g → Reach g h → IsFresh h
Reach-IsFresh f here = f
Reach-IsFresh f (next r s) = Step-IsFresh s (Reach-IsFresh f r)

-- Whenever the client calls Setup in a run of Start, whatever the goroutine, the caller, the group and the
-- signals have done before, the channel is still open: Setup does not panic, and what it leaves is
-- the step of the run.
pub set_up-fine :
    (g : Group)
    → Reach started g
    → g.loop ≡ joining
    → set_up g ≡ some (record g { loop = consuming; ready = g.channel ∷ g.ready })
unfolding set_up is_closed
set_up-fine g r l =
    let fresh = Reach-IsFresh (record { made = tt; open_channel = λ e. refl }) r in
    let open_ = fresh.open_channel l in rw (open_, set_up) refl
