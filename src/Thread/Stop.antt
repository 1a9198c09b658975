-- ===== src/Thread/Stop.antt =====
-- A thread that was told to stop gets out.
use dis_kverbs.Common.{
  ℕ, suc, ◌+◌, ◌≤◌, ◌<◌, ◌≡◌, ◌≢◌, ◌⊎◌, inl, inr, refl, ap, ◌∙◌, true, List, [], Option, some, none,
  arith,
}
use dis_kverbs.Events.{replay}
use dis_kverbs.Kernel.{CircBuf}
use dis_kverbs.Verbs.{Iovec, wq_exited}
use dis_kverbs.Post.{Mem}
use dis_kverbs.Qp.Create.{dis_qp_exit}
use dis_kverbs.SciIf.{SciParams}
use dis_kverbs.Thread.{
  Pc, starting, connecting, clearing, consuming, processing, advancing, waiting, leaving, gone,
  never_ran, System, Turn, start, join, give_up, clear, fetch, finish, advance, drained, wake, kill,
  stop, leave, Works, rest, work, Reach,
}
use dis_kverbs.Thread.Reached.{Reach-Inv}
use dis_kverbs.Thread.Inv.{Inv, Turn-Inv, state_at, held_at, same_end}
use dis_kverbs.Thread.Wakeup.{IsStart, start-Inv}

-- How many steps at most are left once the thread was told to stop.
abbrev pub steps_left : Pc → ℕ
steps_left starting = 2
steps_left connecting = 1
steps_left clearing = 2
steps_left consuming = 2
steps_left processing = 4
steps_left advancing = 3
steps_left waiting = 3
steps_left leaving = 1
steps_left gone = 0
steps_left never_ran = 0

few_left : (k : Pc) → steps_left k ≤ 4
few_left k = ground arith

-- The thread's function was called.
abbrev pub IsCalled : Pc → Type 0
IsCalled k = (k ≢ starting) × (k ≢ never_ran)

module _ (c : CircBuf) (p : SciParams) where
  abbrev pub turns : {s t : System} → Works c p s t → ℕ
  turns rest = 0
  turns (work turn later) = suc (turns later)

  -- What the thread has reached once it left: nothing is held any more and the queue shows EXITED.
  pub record IsStopped (t : System) : Type 0 where
    pub out : t.pc ≡ gone
    pub shown : t.wq.wq_state ≡ wq_exited
    pub nothing_held : replay same_end [] t.events ≡ some []

  stopped : {t : System} → Inv t → t.pc ≡ gone → IsStopped t
  stopped {t} v at = record {
    out = at;
    shown = v.state ∙ ap state_at at;
    nothing_held = v.held ∙ ap (λ k. some (held_at k t.wq)) at;
  }

  -- A step of a thread that was told so.
  record IsNearer (s t : System) : Type 0 where
    nearer : steps_left t.pc < steps_left s.pc
    still_told : t.told ≡ true
    called : IsCalled t.pc

  goes_to :
      {s : System} (k : Pc) (t : System)
      → s.pc ≡ k
      → steps_left t.pc < steps_left k
      → IsCalled t.pc
      → t.told ≡ true
      → IsNearer s t
  goes_to k t at fewer called told = record {
    nearer = omega (arith, ap steps_left at);
    still_told = told;
    called = called;
  }

  Turn-IsNearer : {s t : System} → Turn c p s t → s.told ≡ true → IsNearer s t
  Turn-IsNearer (start at) told = goes_to starting _ at (omega arith) ((λ e. cc), λ e. cc) told
  Turn-IsNearer (join err at free ok) told = absurd (cc (free, told))
  Turn-IsNearer (give_up at now) told =
      goes_to connecting _ at (omega arith) ((λ e. cc), λ e. cc) told
  Turn-IsNearer (clear at free) told = absurd (cc (free, told))
  Turn-IsNearer (fetch at free left) told = absurd (cc (free, told))
  Turn-IsNearer (finish replies one at run ok) told =
      goes_to processing _ at (omega arith) ((λ e. cc), λ e. cc) told
  Turn-IsNearer (advance at) told = goes_to advancing _ at (omega arith) ((λ e. cc), λ e. cc) told
  Turn-IsNearer (drained at free left) told = absurd (cc (free, told))
  Turn-IsNearer (wake at ready) told = goes_to waiting _ at (omega arith) ((λ e. cc), λ e. cc) told
  Turn-IsNearer (kill at pending) told =
      goes_to waiting _ at (omega arith) ((λ e. cc), λ e. cc) told
  Turn-IsNearer (stop (inl at) now) told =
      goes_to clearing _ at (omega arith) ((λ e. cc), λ e. cc) told
  Turn-IsNearer (stop (inr at) now) told =
      goes_to consuming _ at (omega arith) ((λ e. cc), λ e. cc) told
  Turn-IsNearer (leave at) told = goes_to leaving _ at (omega arith) ((λ e. cc), λ e. cc) told

  -- The way on from each place.
  goes_on :
      {s : System} (k : Pc)
      → s.pc ≡ k
      → IsCalled k
      → s.told ≡ true
      → (s.pc ≡ gone) ⊎ ((t : System) × Turn c p s t)
  goes_on starting at called told = absurd (called.0 refl)
  goes_on never_ran at called told = absurd (called.1 refl)
  goes_on connecting at called told = inr (_, give_up at told)
  goes_on clearing at called told = inr (_, stop (inl at) told)
  goes_on consuming at called told = inr (_, stop (inr at) told)
  goes_on processing at called told = inr (_, finish [] _ at refl (inr told))
  goes_on advancing at called told = inr (_, advance at)
  goes_on waiting at called told = inr (_, wake at (inr told))
  goes_on leaving at called told = inr (_, leave at)
  goes_on gone at called told = inl at

  -- Where a path of its steps leads.
  record IsOnTheWay (s u : System) (n : ℕ) : Type 0 where
    ordered : Inv u
    few : n + steps_left u.pc ≤ steps_left s.pc
    on : (u.pc ≡ gone) ⊎ ((t : System) × Turn c p u t)

  Works-IsOnTheWay :
      {s u : System}
      → (path : Works c p s u) → Inv s
      → IsCalled s.pc
      → s.told ≡ true
      → IsOnTheWay s u (turns path)
  Works-IsOnTheWay {s} rest v called told = record {
    ordered = v;
    few = omega arith;
    on = goes_on s.pc refl called told;
  }
  Works-IsOnTheWay (work turn later) v called told =
      let one = Turn-IsNearer turn told in
      let all = Works-IsOnTheWay later (Turn-Inv c p turn v) one.called one.still_told in
      record { ordered = all.ordered; few = omega (arith, all.few, one.nearer); on = all.on }

  module _ (kmalloc : ℕ → Option (ℕ × List Iovec)) (mem : Mem) where
    -- In every state that can be reached, let the thread's function have been called and the thread be told
    -- to stop. Then it gets out, whatever the message library answers and whatever signal comes: it
    -- takes at most four steps of its own, and after each of them it has either another one to take,
    -- or it is out, holds no end of a message queue, and its queue shows EXITED, so that dis_qp_exit
    -- returns.
    pub stops :
        {s t u : System}
        → IsStart s
        → Reach c p kmalloc mem s t
        → t.pc ≢ starting
        → t.pc ≢ never_ran
        → t.told ≡ true
        → (path : Works c p t u)
        → (turns path ≤ 4)
          × ((IsStopped u × (dis_qp_exit (λ _. u.wq) t.wq ≢ none)) ⊎ ((w : System) × Turn c p u w))
    unfolding dis_qp_exit
    stops {s} {t} {u} v r started ran told path =
        let inv = Reach-Inv c p kmalloc mem (start-Inv v) r in
        let way = Works-IsOnTheWay path inv (started, ran) told in
        let few = few_left t.pc in
        (
          omega (arith, way.few, few),
          elim way.on [
            | inl out ↦
                let done = stopped way.ordered out in
                let shown = done.shown in inl (done, ground (arith, inv.state, shown))
            | inr further ↦ inr further
          ],
        )
