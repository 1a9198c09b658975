-- ===== src/Calls/Keys.antt =====
-- A domain that gave out its last key.
use dis_kverbs.Common.{
  ℕ, ◌≡◌, inl, inr, refl, ap, ◌∙◌, arith, Option, none, some, List, [], ◌∷◌, AllSome, AllSome-elim,
  AllSome-weaken, AllSome-map, Option-cases,
}
use mathlib.Core.Option
use dis_kverbs.Kernel.{CircBuf, RoundUp}
use dis_kverbs.Events.{Event}
use dis_kverbs.Memory.{Heap, load, free}
use dis_kverbs.Memory.All.{All-free}
use dis_kverbs.Verbs.{Ret, done, fail, Iovec, DisMr, DisCq, DisWqType, dis_mr_max}
use dis_kverbs.Mr.{MrOut, Resource, dis_get_dma_mr}
use dis_kverbs.Mr.Effect.{
  IsEffect, dis_get_dma_mr-IsEffect, dis_reg_user_mr-IsEffect, dis_dereg_mr-frees,
}
use dis_kverbs.Cq.{dis_create_cq}
use dis_kverbs.Qp.{dis_post_send, dis_post_recv}
use dis_kverbs.Qp.Create.{QpOut, dis_create_qp}
use dis_kverbs.Qp.Create.Effect.{IsAdded, dis_create_qp-IsAdded}
use dis_kverbs.Worker.{dis_wq_consume_all}
use dis_kverbs.Calls.{
  Objects, Call, get_dma_mr, reg_user_mr, dereg_mr, create_cq, poll_cq, destroy_cq, create_qp,
  modify_qp, destroy_qp, post_send, post_recv, work_sq, work_rq, zero_cq, with_regions, with_cq,
  with_qp, sq_worked, rq_worked, mem_of, call, calls,
}
use dis_kverbs.Calls.Access.{on_qp-AllSome, on_cq-AllSome}
use dis_kverbs.Calls.Stops.{destroyed-same}
use dis_kverbs.Calls.Steps.{IsSized, AllSized}

-- No key was given out, and every region that is live was live before.
record IsSpent (o o' : Objects) : Type 0 where
  same_count : o'.pd.mr_c ≡ o.pd.mr_c
  no_new : (a : ℕ) (x : DisMr) → load o'.mrs a ≡ some x → load o.mrs a ≡ some x

same-IsSpent : {o o' : Objects} → o'.pd.mr_c ≡ o.pd.mr_c → o'.mrs ≡ o.mrs → IsSpent o o'
same-IsSpent count regions = record { same_count = count; no_new = λ a x e. rw (← regions) e }

freed-IsSpent :
    (o : Objects) (a : ℕ) (h : Heap DisMr) → h ≡ free o.mrs a → IsSpent o (record o { mrs = h })
freed-IsSpent o a h e = record {
  same_count = refl;
  no_new = rw e (All-free (λ b x. load o.mrs b ≡ some x) o.mrs a (λ b x live. live));
}

regions-IsSpent :
    (o : Objects) (out : MrOut)
    → o.pd.mr_c ≡ dis_mr_max
    → IsEffect o.pd o.mrs out
    → IsSpent o (with_regions o out)
regions-IsSpent o out full (inl (same_pd, same_mrs)) =
    same-IsSpent (ap (λ p. p.mr_c) same_pd) same_mrs
regions-IsSpent o out full (inr (mr, room, new_pd, new_mrs)) = absurd (omega (arith, room, full))

new_cq-IsSpent : (o : Objects) (out : Ret × DisCq) → IsSpent o (with_cq o out)
new_cq-IsSpent o (done, cq) = same-IsSpent refl refl
new_cq-IsSpent o (fail n, cq) = same-IsSpent refl refl

pair-IsSpent :
    (o : Objects) (out : QpOut)
    → IsAdded o.pd o.qps out
    → IsSpent o (record o { pd = out.pd; qps = out.qps })
pair-IsSpent o out (inl (same_pd, _)) = same-IsSpent (ap (λ p. p.mr_c) same_pd) refl
pair-IsSpent o out (inr (qp, room, new_pd, new_qps, made)) =
    same-IsSpent (ap (λ p. p.mr_c) new_pd) refl

-- A result in whatever form.
any-IsSpent :
    {A : Type 0} (o : Objects) (f : A → Objects) (r : Option A)
    → ((x : A) → IsSpent o (f x))
    → AllSome (IsSpent o) (Option.map f r)
any-IsSpent o f none all = tt
any-IsSpent o f (some x) all = all x

module _ (c : CircBuf) (r : RoundUp) (kmalloc : ℕ → Option (ℕ × List Iovec))
    (msq_of : ℕ → DisWqType → ℕ) (ibpd : ℕ) where
  call-IsSpent :
      (o : Objects) (x : Call)
      → IsSized x
      → o.pd.mr_c ≡ dis_mr_max
      → AllSome (IsSpent o) (call c r kmalloc msq_of ibpd o x)
  unfolding call
  call-IsSpent o (get_dma_mr mr_alloc) s full =
      regions-IsSpent o (dis_get_dma_mr o.pd o.mrs mr_alloc) full
        (dis_get_dma_mr-IsEffect o.pd o.mrs mr_alloc)
  call-IsSpent o (reg_user_mr len va env) s full =
      AllSome-map (IsEffect o.pd o.mrs) (IsSpent o) (with_regions o) _
        (λ out e. regions-IsSpent o out full e) (dis_reg_user_mr-IsEffect o.pd o.mrs len va env)
  call-IsSpent o (dereg_mr a) s full =
      AllSome-map (λ (out : Ret × Heap DisMr × List (Event Resource)). out.1 ≡ free o.mrs a)
        (IsSpent o) (λ out. record o { mrs = out.1 }) _ (λ out e. freed-IsSpent o a out.1 e)
        (dis_dereg_mr-frees o.mrs a)
  call-IsSpent o (create_cq cqe buf_alloc) s full =
      new_cq-IsSpent o (dis_create_cq r zero_cq cqe buf_alloc)
  call-IsSpent o (poll_cq a n) s full =
      on_cq-AllSome c r kmalloc msq_of ibpd (IsSpent o) o a _ (λ cq live. same-IsSpent refl refl)
  call-IsSpent o (destroy_cq a) s full =
      on_cq-AllSome c r kmalloc msq_of ibpd (IsSpent o) o a _ (λ cq live. same-IsSpent refl refl)
  call-IsSpent o (create_qp attr env) s full =
      pair-IsSpent o (dis_create_qp r msq_of ibpd o.pd o.qps attr env)
        (dis_create_qp-IsAdded r msq_of ibpd o.pd o.qps attr env s.0 s.1)
  call-IsSpent o (modify_qp a rq_thread sq_thread attr) s full =
      on_qp-AllSome c r kmalloc msq_of ibpd (IsSpent o) o a _ (λ qp live. same-IsSpent refl refl)
  call-IsSpent o (destroy_qp a rq_replies sq_replies) s full =
      on_qp-AllSome c r kmalloc msq_of ibpd (IsSpent o) o a _ (λ qp live.
        AllSome-weaken (λ (o' : Objects). (o'.pd ≡ o.pd) × (o'.mrs ≡ o.mrs)) (IsSpent o) _
          (λ o' (same_pd, same_mrs). same-IsSpent (ap (λ p. p.mr_c) same_pd) same_mrs)
          (destroyed-same c r kmalloc msq_of ibpd o a qp rq_replies sq_replies))
  call-IsSpent o (post_send a wrs) s full =
      on_qp-AllSome c r kmalloc msq_of ibpd (IsSpent o) o a _ (λ qp live.
        any-IsSpent o (with_qp o a) (dis_post_send c kmalloc (mem_of o) qp wrs)
          (λ out. same-IsSpent refl refl))
  call-IsSpent o (post_recv a wrs) s full =
      on_qp-AllSome c r kmalloc msq_of ibpd (IsSpent o) o a _ (λ qp live.
        any-IsSpent o (with_qp o a) (dis_post_recv c kmalloc (mem_of o) qp wrs)
          (λ out. same-IsSpent refl refl))
  call-IsSpent o (work_sq a replies) s full =
      on_qp-AllSome c r kmalloc msq_of ibpd (IsSpent o) o a _ (λ qp live.
        on_cq-AllSome c r kmalloc msq_of ibpd (IsSpent o) o qp.sq.cq _ (λ cq cq_live.
          any-IsSpent o (sq_worked o a qp) (dis_wq_consume_all c qp.sq.wqe_max qp.sq cq replies)
            (λ d. same-IsSpent refl refl)))
  call-IsSpent o (work_rq a replies) s full =
      on_qp-AllSome c r kmalloc msq_of ibpd (IsSpent o) o a _ (λ qp live.
        on_cq-AllSome c r kmalloc msq_of ibpd (IsSpent o) o qp.rq.cq _ (λ cq cq_live.
          any-IsSpent o (rq_worked o a qp) (dis_wq_consume_all c qp.rq.wqe_max qp.rq cq replies)
            (λ d. same-IsSpent refl refl)))

  all_calls :
      (o : Objects) (xs : List Call)
      → AllSized xs
      → o.pd.mr_c ≡ dis_mr_max
      → AllSome (IsSpent o) (calls c r kmalloc msq_of ibpd o xs)
  unfolding calls
  all_calls o [] s full = same-IsSpent refl refl
  all_calls o (x ∷ xs) s full = elim (Option-cases (call c r kmalloc msq_of ibpd o x)) [
    | inl ends ↦ rw (ends, calls) tt
    | inr (o', goes) ↦
        let first = AllSome-elim (IsSpent o) (call-IsSpent o x s.0 full) goes in
        rw (goes, calls)
          (AllSome-weaken (IsSpent o') (IsSpent o) (calls c r kmalloc msq_of ibpd o' xs)
            (λ u rest. record {
              same_count = rest.same_count ∙ first.same_count;
              no_new = λ a m live. first.no_new a m (rest.no_new a m live);
            })
            (all_calls o' xs s.1 (first.same_count ∙ full)))
  ]

  -- Once a domain has given out its 100 keys, it registers no region any more, whatever is deregistered
  -- or destroyed in between: after any calls whose sizes round up to 32 bits, each region that is live
  -- was live before them.
  pub keys_used_up :
      (o : Objects) (xs : List Call) {o' : Objects} (a : ℕ) (mr : DisMr)
      → AllSized xs
      → o.pd.mr_c ≡ dis_mr_max
      → calls c r kmalloc msq_of ibpd o xs ≡ some o'
      → load o'.mrs a ≡ some mr
      → load o.mrs a ≡ some mr
  keys_used_up o xs a mr sized full run live =
      (AllSome-elim (IsSpent o) (all_calls o xs sized full) run).no_new a mr live
