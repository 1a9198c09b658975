-- ===== src/Thread/Live.antt =====
-- What the thread brings about by its own steps.
use dis_kverbs.Common.{
  ℕ, zero, suc, ◌+◌, ◌<◌, ◌≡◌, ◌⊎◌, inl, inr, refl, ap, sym, ◌∙◌, false, [], ◌∷◌, ◌++◌, map, arith,
  append_assoc, append-nil, get_or,
}
use dis_kverbs.Common.Ring.{ring_contents_empty}
use dis_kverbs.Kernel.{CircBuf}
use dis_kverbs.Verbs.{DisWqe, DisCqe, wq_empty, wq_post, wc_success, zero_wqe}
use dis_kverbs.Cq.{cqe_of}
use dis_kverbs.Cq.Inv.{IsValid, used, contents}
use dis_kverbs.SciIf.{SciParams, answer, sci_ok}
use dis_kverbs.Worker.{complete_sqe, step_tail}
use dis_kverbs.Worker.Complete.{complete_sqe-contents}
use dis_kverbs.Worker.Success.{consume_one_success}
use dis_kverbs.Worker.Order.{used-added}
use dis_kverbs.Worker.Tail.{
  IsQueue, wq_waiting, step_tail-IsQueue, waiting-step_tail, used-step_tail,
}
use dis_kverbs.Thread.{
  clearing, consuming, waiting, System, clear, fetch, finish, advance, drained, wake, Works, rest,
  work,
}
use dis_kverbs.Thread.Inv.{wq_entries, drained_lem}

module _ (c : CircBuf) (p : SciParams) where
  abbrev pub success_of : DisWqe → DisCqe
  success_of wqe = cqe_of wqe wc_success

  -- The entries were transferred with success, in order, and the thread waits.
  pub record IsCaughtUp (s t : System) : Type 0 where
    pub waits : t.pc ≡ waiting
    pub empty : wq_entries t.wq ≡ 0
    pub completed : contents t.cq ≡ contents s.cq ++ map success_of (wq_waiting s.wq)
    pub valid : IsValid t.cq

  abbrev cleared : System → System
  cleared s = record s { wq = record (s.wq) { wq_flag = wq_empty }; pc = consuming }

  same_start : {s t : System} → IsCaughtUp (cleared s) t → IsCaughtUp s t
  same_start k = record {
    waits = k.waits;
    empty = k.empty;
    completed = k.completed;
    valid = k.valid;
  }

  -- One entry, from dis_wq_consume_all back to it.
  after_one : System → System
  after_one s =
      let wqe = get_or s.wq.buf s.wq.tail zero_wqe in
      record s {
        wq = step_tail s.wq wqe;
        cq = (complete_sqe c s.cq wqe wc_success []).cq;
        pc = consuming;
      }

  take_one :
      {s t : System}
      → s.pc ≡ consuming
      → s.told ≡ false
      → IsQueue s.wq
      → 0 < wq_entries s.wq
      → Works c p (after_one s) t
      → Works c p s t
  unfolding after_one
  take_one {s} at free q more later =
      let wqe = get_or s.wq.buf s.wq.tail zero_wqe in
      work (fetch at free (ground (arith, drained_lem c p s.wq q))) (
        work
          (finish (answer sci_ok wqe.byte_len ∷ []) (complete_sqe c s.cq wqe wc_success []) refl
            (sym (consume_one_success c s.wq.wq_type s.cq wqe [])) (inl refl))
          (work (advance refl) later))

  catch_up_from :
      (n : ℕ) {s : System}
      → s.pc ≡ consuming
      → s.told ≡ false
      → IsQueue s.wq
      → IsValid s.cq
      → wq_entries s.wq ≡ n
      → used s.cq + n < s.cq.cqe_max
      → (t : System) × Works c p s t × IsCaughtUp s t
  unfolding after_one
  catch_up_from zero {s} at free q v none_left room =
      let empty : wq_waiting s.wq ≡ [] =
        ring_contents_empty zero_wqe s.wq.buf s.wq.wqe_max s.wq.head s.wq.tail none_left in
      (
        record s { pc = waiting },
        work (drained at free (ground (arith, drained_lem c p s.wq q))) rest,
        record {
          waits = refl;
          empty = none_left;
          completed = rw empty (sym (append-nil (contents s.cq)));
          valid = v;
        },
      )
  catch_up_from (suc n) {s} at free q v left room =
      let more : 0 < wq_entries s.wq = omega arith in
      let wqe = get_or s.wq.buf s.wq.tail zero_wqe in
      let one = complete_sqe c s.cq wqe wc_success [] in
      let (added, v', size) = complete_sqe-contents c wqe wc_success [] v (omega arith) in
      let (t, path, k) =
        catch_up_from n {s = after_one s} refl free (step_tail-IsQueue s.wq wqe q) v'
          (omega (arith, used-step_tail s.wq wqe q more))
          (omega (arith, used-added c s.cq one.cq (cqe_of wqe wc_success) added, size)) in
      (
        t,
        take_one at free q more path,
        record {
          waits = k.waits;
          empty = k.empty;
          completed =
              k.completed
              ∙ ap (λ l. l ++ map success_of (wq_waiting (step_tail s.wq wqe))) added
              ∙ append_assoc (contents s.cq) (cqe_of wqe wc_success ∷ []) _
              ∙ ap (λ l. contents s.cq ++ map success_of l)
                  (sym (waiting-step_tail s.wq wqe q more));
          valid = k.valid;
        },
      )

  abbrev pub IsAwake : System → Type 0
  IsAwake s = (s.pc ≡ clearing) ⊎ (s.pc ≡ consuming) ⊎ ((s.pc ≡ waiting) × (s.wq.wq_flag ≡ wq_post))

  -- From dis_wq_consume_all, from before it, and from a wait that a notification ends, the thread can get,
  -- by its own steps alone, to a wait at which it has completed every entry with success, in the
  -- order of the entries, given room for their completions.
  pub catches_up :
      {s : System}
      → IsAwake s
      → s.told ≡ false
      → IsQueue s.wq
      → IsValid s.cq
      → used s.cq + wq_entries s.wq < s.cq.cqe_max
      → (t : System) × Works c p s t × IsCaughtUp s t
  catches_up (inr (inl at)) free q v room = catch_up_from _ at free q v refl room
  catches_up {s} (inl at) free q v room =
      let (t, path, k) =
        catch_up_from (wq_entries s.wq) {s = cleared s} refl free (record { ring = q.ring }) v refl
          room in
      (t, work (clear at free) path, same_start k)
  catches_up {s} (inr (inr (at, flag))) free q v room =
      let (t, path, k) =
        catch_up_from (wq_entries s.wq) {s = cleared s} refl free (record { ring = q.ring }) v refl
          room in
      (t, work (wake at (inl (λ e. cc))) (work (clear refl free) path), same_start k)
