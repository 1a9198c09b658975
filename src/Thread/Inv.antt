-- ===== src/Thread/Inv.antt =====
-- The invariant of a worker's thread and those around it.
use dis_kverbs.Common.{
  ℕ, ◌<◌, ◌≡◌, ◌⊎◌, inl, inr, refl, ap, sym, ◌∙◌, Bool, true, false, List, [], ◌∷◌, some, arith,
  ◌==◌, length-set, set, if◌then◌else◌,
}
use dis_kverbs.Events.{replay, replay-acquire, replay-release}
use dis_kverbs.Common.Ring.{ring_used}
use dis_kverbs.Kernel.{CircBuf}
use dis_kverbs.Verbs.{DisWq, DisWqStatus, wq_post, wq_initialized, wq_running, wq_exited}
use dis_kverbs.Circ.{empty_test, IsRing-next_tail}
use dis_kverbs.SciIf.{SciParams, MsqEnd, created, connected}
use dis_kverbs.Worker.Tail.{same_ring, IsQueue}
use dis_kverbs.Thread.{
  Pc, starting, connecting, clearing, consuming, processing, advancing, waiting, leaving, gone,
  never_ran, System, Turn, start, join, give_up, clear, fetch, finish, advance, drained, wake, kill,
  stop, leave, is_drained, joined, dis_wq_exit,
}

abbrev pub same_end : MsqEnd → MsqEnd → Bool
same_end (created a) (created b) = a == b
same_end (connected a) (connected b) = a == b
same_end _ _ = false

abbrev pub wq_entries : DisWq → ℕ
wq_entries wq = ring_used wq.wqe_max wq.head wq.tail

-- The state that the queue shows while its thread stands there.
abbrev pub state_at : Pc → DisWqStatus
state_at starting = wq_initialized
state_at never_ran = wq_initialized
state_at gone = wq_exited
state_at _ = wq_running

-- Whether an end of a message queue is held there, and which.
abbrev pub holds : Pc → Bool
holds starting = false
holds connecting = false
holds gone = false
holds never_ran = false
holds _ = true

abbrev pub held_at : Pc → DisWq → List MsqEnd
held_at k wq = if holds k then joined wq ∷ [] else []

pub record Inv (s : System) : Type 0 where
  pub ordered : IsQueue s.wq
  pub state : s.wq.wq_state ≡ state_at s.pc
  pub held : replay same_end [] s.events ≡ some (held_at s.pc s.wq)
  pub busy : (s.pc ≡ processing) ⊎ (s.pc ≡ advancing) → 0 < wq_entries s.wq
  pub awake : s.pc ≡ waiting → (wq_entries s.wq ≡ 0) ⊎ (s.posting ≡ true) ⊎ (s.wq.wq_flag ≡ wq_post)

joined_same : (wq : DisWq) → same_end (joined wq) (joined wq) ≡ true
unfolding joined
joined_same wq = ground arith

-- dis_wq_exit gives back the end that dis_wq_init joined.
exit-eq-joined : (wq : DisWq) → dis_wq_exit wq ≡ joined wq
unfolding dis_wq_exit joined
exit-eq-joined wq = refl

-- A step that only goes from one place to another, with the same state shown and the same end held.
pub elsewhere :
    {s : System} (k l : Pc)
    → s.pc ≡ k
    → state_at l ≡ state_at k
    → held_at l s.wq ≡ held_at k s.wq
    → ((l ≡ processing) ⊎ (l ≡ advancing) → 0 < wq_entries s.wq)
    → (l ≡ waiting → (wq_entries s.wq ≡ 0) ⊎ (s.posting ≡ true) ⊎ (s.wq.wq_flag ≡ wq_post))
    → Inv s
    → Inv (record s { pc = l })
elsewhere {s} k l e state held busy awake v = record {
  ordered = v.ordered;
  state = v.state ∙ ap state_at e ∙ sym state;
  held = v.held ∙ ap (λ j. some (held_at j s.wq)) e ∙ ap some (sym held);
  busy = busy;
  awake = awake;
}

module _ (c : CircBuf) (p : SciParams) where
  pub drained_lem :
      (wq : DisWq)
      → IsQueue wq
      → ((is_drained c wq ≡ true) × (wq_entries wq ≡ 0))
        ⊎ ((is_drained c wq ≡ false) × (0 < wq_entries wq))
  unfolding is_drained
  drained_lem wq v = ground (arith, empty_test v.ring c)

  -- Every step of the thread keeps the invariant.
  pub Turn-Inv : {s t : System} → Turn c p s t → Inv s → Inv t
  unfolding joined
  Turn-Inv {s} (start e) v = record {
    ordered = same_ring s.wq _ refl refl refl refl v.ordered;
    state = refl;
    held = v.held ∙ ap (λ k. some (held_at k s.wq)) e;
    busy = λ b. ground arith;
    awake = λ w. cc;
  }
  Turn-Inv {s} (join err e told ok) v = record {
    ordered = v.ordered;
    state = v.state ∙ ap state_at e;
    held =
        replay-acquire same_end [] s.events (joined s.wq)
          (v.held ∙ ap (λ k. some (held_at k s.wq)) e);
    busy = λ b. ground arith;
    awake = λ w. cc;
  }
  Turn-Inv {s} (give_up e told) v = record {
    ordered = same_ring s.wq _ refl refl refl refl v.ordered;
    state = refl;
    held = v.held ∙ ap (λ k. some (held_at k s.wq)) e;
    busy = λ b. ground arith;
    awake = λ w. cc;
  }
  Turn-Inv {s} (clear e told) v = record {
    ordered = same_ring s.wq _ refl refl refl refl v.ordered;
    state = v.state ∙ ap state_at e;
    held = v.held ∙ ap (λ k. some (held_at k s.wq)) e;
    busy = λ b. ground arith;
    awake = λ w. cc;
  }
  Turn-Inv {s} (fetch e told some_left) v =
      elsewhere consuming processing e refl refl
        (λ b. ground (arith, drained_lem s.wq v.ordered, some_left)) (λ w. cc) v
  Turn-Inv {s} (finish replies one e run ok) v = record {
    ordered =
        same_ring s.wq (record (s.wq) { buf = set s.wq.buf s.wq.tail one.wqe }) refl refl refl
          (length-set s.wq.buf s.wq.tail one.wqe) v.ordered;
    state = v.state ∙ ap state_at e;
    held = v.held ∙ ap (λ k. some (held_at k s.wq)) e;
    busy = λ b. v.busy (inl e);
    awake = λ w. cc;
  }
  Turn-Inv {s} (advance e) v = record {
    ordered = record { ring = IsRing-next_tail v.ordered.ring };
    state = v.state ∙ ap state_at e;
    held = v.held ∙ ap (λ k. some (held_at k s.wq)) e;
    busy = λ b. ground arith;
    awake = λ w. cc;
  }
  Turn-Inv {s} (drained e told none_left) v =
      elsewhere consuming waiting e refl refl (λ b. ground arith)
        (λ w. inl (ground (arith, drained_lem s.wq v.ordered, none_left))) v
  Turn-Inv (wake e ready) v = elsewhere waiting clearing e refl refl (λ b. ground arith) (λ w. cc) v
  Turn-Inv (kill e pending) v =
      elsewhere waiting leaving e refl refl (λ b. ground arith) (λ w. cc) v
  Turn-Inv (stop (inl e) told) v =
      elsewhere clearing leaving e refl refl (λ b. ground arith) (λ w. cc) v
  Turn-Inv (stop (inr e) told) v =
      elsewhere consuming leaving e refl refl (λ b. ground arith) (λ w. cc) v
  Turn-Inv {s} (leave e) v = record {
    ordered = same_ring s.wq _ refl refl refl refl v.ordered;
    state = refl;
    held = rw (exit-eq-joined s.wq) (
        replay-release same_end [] s.events (joined s.wq)
          (v.held ∙ ap (λ k. some (held_at k s.wq)) e) (joined_same s.wq));
    busy = λ b. ground arith;
    awake = λ w. cc;
  }
