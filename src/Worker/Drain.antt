-- ===== src/Worker/Drain.antt =====
-- A worker's run over the entries of its queue.
use dis_kverbs.Common.{
  ℕ, zero, suc, ◌<◌, ◌≡◌, List, [], ◌∷◌, some, arith, refl, ap, ◌∙◌, true, false, Bool-cases, inl,
  inr, ltb, tests, get_or, sym,
}
use dis_kverbs.Common.Ring.{ring_used, ring_contents_empty}
use mathlib.Core.Option
use dis_kverbs.Kernel.{CircBuf}
use dis_kverbs.Verbs.{Ret, done, fail, DisWqe, DisCq, DisWq, DisWqType, zero_wqe}
use dis_kverbs.Circ.{empty_test}
use dis_kverbs.SciIf.{SciReply}
pub use dis_kverbs.Worker.Tail.{IsQueue, wq_waiting}
use dis_kverbs.Worker.Tail.{step_tail-IsQueue, waiting-step_tail, used-step_tail}
use dis_kverbs.Worker.{consume_one, Drained, kfree_map, step_tail, dis_wq_consume_all}

-- What a run shows, with the entries that still wait in place of the buffer.
pub record Outcome : Type 0 where
  pub ret : Ret
  pub waiting : List DisWqe
  pub cq : DisCq
  pub replies : List SciReply
  pub freed : List ℕ

-- A queue of entries, worked off in order: each is consumed with the replies that the one before
-- left, and its dynamic map is freed. Without replies the worker was told to stop.
pub drain : CircBuf → DisWqType → DisCq → List DisWqe → List SciReply → Outcome
drain c type cq wqes [] = record {
  ret = fail 42;
  waiting = wqes;
  cq = cq;
  replies = [];
  freed = [];
}
drain c type cq [] (r ∷ rs) = record {
  ret = done;
  waiting = [];
  cq = cq;
  replies = r ∷ rs;
  freed = [];
}
drain c type cq (wqe ∷ wqes) (r ∷ rs) =
    let one = consume_one c type cq wqe (r ∷ rs) in
    let rest = drain c type one.cq wqes one.replies in
    record rest { freed = kfree_map one.wqe rest.freed }

abbrev pub outcome_of : Drained → Outcome
outcome_of d = record {
  ret = d.ret;
  waiting = wq_waiting d.wq;
  cq = d.cq;
  replies = d.replies;
  freed = d.freed;
}

module _ (c : CircBuf) where
  pub consume_all_empty :
      (fuel : ℕ) (wq : DisWq) (cq : DisCq) (r : SciReply) (rs : List SciReply)
      → IsQueue wq
      → ltb 0 (ring_used wq.wqe_max wq.head wq.tail) ≡ false
      → dis_wq_consume_all c (suc fuel) wq cq (r ∷ rs)
        ≡ some (record { ret = done; wq = wq; cq = cq; replies = r ∷ rs; freed = [] })
  unfolding dis_wq_consume_all
  consume_all_empty fuel wq cq r rs v e = rw (empty_test v.ring c, e) refl

  pub consume_all_more :
      (fuel : ℕ) (wq : DisWq) (cq : DisCq) (r : SciReply) (rs : List SciReply)
      → IsQueue wq
      → ltb 0 (ring_used wq.wqe_max wq.head wq.tail) ≡ true
      → let one = consume_one c wq.wq_type cq (get_or wq.buf wq.tail zero_wqe) (r ∷ rs) in
        dis_wq_consume_all c (suc fuel) wq cq (r ∷ rs)
        ≡ Option.map
            (λ (d : Drained). record d { freed = kfree_map one.wqe d.freed })
            (dis_wq_consume_all c fuel (step_tail wq one.wqe) one.cq one.replies)
  unfolding dis_wq_consume_all
  consume_all_more fuel wq cq r rs v e = rw (empty_test v.ring c, e) refl

  pub drain_more :
      (type : DisWqType) (cq : DisCq) (wqe : DisWqe) (wqes : List DisWqe) (r : SciReply)
      (rs : List SciReply)
      → let one = consume_one c type cq wqe (r ∷ rs) in
        let rest = drain c type one.cq wqes one.replies in
        drain c type cq (wqe ∷ wqes) (r ∷ rs) ≡ record rest { freed = kfree_map one.wqe rest.freed }
  unfolding drain
  drain_more type cq wqe wqes r rs = refl

  pub drain_stopped :
      (type : DisWqType) (cq : DisCq) (wqes : List DisWqe)
      → drain c type cq wqes []
        ≡ record { ret = fail 42; waiting = wqes; cq = cq; replies = []; freed = [] }
  unfolding drain
  drain_stopped type cq wqes = refl

  pub drain_empty :
      (type : DisWqType) (cq : DisCq) (r : SciReply) (rs : List SciReply)
      → drain c type cq [] (r ∷ rs)
        ≡ record { ret = done; waiting = []; cq = cq; replies = r ∷ rs; freed = [] }
  unfolding drain
  drain_empty type cq r rs = refl

  pub consume_all_stopped :
      (fuel : ℕ) (wq : DisWq) (cq : DisCq)
      → dis_wq_consume_all c fuel wq cq []
        ≡ some (record { ret = fail 42; wq = wq; cq = cq; replies = []; freed = [] })
  unfolding dis_wq_consume_all
  consume_all_stopped zero wq cq = refl
  consume_all_stopped (suc fuel) wq cq = refl

  -- With fuel above the number of entries that wait, a worker's run over a valid queue ends, and is
  -- `drain` of these entries: it takes them in order, leaves those that it did not come to, and
  -- the queue stays valid.
  pub consume_all-drain :
      (fuel : ℕ) (wq : DisWq) (cq : DisCq) (replies : List SciReply)
      → IsQueue wq
      → ring_used wq.wqe_max wq.head wq.tail < fuel
      → (d : Drained) × (dis_wq_consume_all c fuel wq cq replies ≡ some d)
        × (outcome_of d ≡ drain c wq.wq_type cq (wq_waiting wq) replies)
        × IsQueue d.wq
  consume_all-drain fuel wq cq [] v enough =
      (_, consume_all_stopped fuel wq cq, sym (drain_stopped wq.wq_type cq (wq_waiting wq)), v)
  consume_all-drain zero wq cq (r ∷ rs) v enough = absurd (omega (arith, enough))
  consume_all-drain (suc fuel) wq cq (r ∷ rs) v enough =
      elim (Bool-cases (ltb 0 (ring_used wq.wqe_max wq.head wq.tail))) [
        | inl more ↦
            let some_used : 0 < ring_used wq.wqe_max wq.head wq.tail = omega (tests, more) in
            let first = get_or wq.buf wq.tail zero_wqe in
            let one = consume_one c wq.wq_type cq first (r ∷ rs) in
            let wq' = step_tail wq one.wqe in
            let (d, run, same, v') =
              consume_all-drain fuel wq' one.cq one.replies (step_tail-IsQueue wq one.wqe v)
                (omega (arith, used-step_tail wq one.wqe v some_used)) in
            (
              record d { freed = kfree_map one.wqe d.freed },
              consume_all_more fuel wq cq r rs v more
                  ∙ ap
                      (Option.map (λ (e : Drained). record e { freed = kfree_map one.wqe e.freed }))
                      run,
              ap (λ (o : Outcome). record o { freed = kfree_map one.wqe o.freed }) same
                  ∙ sym (drain_more wq.wq_type cq first (wq_waiting wq') r rs)
                  ∙ ap (λ l. drain c wq.wq_type cq l (r ∷ rs))
                      (sym (waiting-step_tail wq one.wqe v some_used)),
              record { ring = v'.ring },
            )
        | inr empty ↦
            let none_wait : wq_waiting wq ≡ [] =
              ring_contents_empty zero_wqe wq.buf wq.wqe_max wq.head wq.tail
                (omega (tests, empty)) in
            (
              _,
              consume_all_empty fuel wq cq r rs v empty,
              rw none_wait (sym (drain_empty wq.wq_type cq r rs)),
              v,
            )
      ]
