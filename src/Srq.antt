-- ===== src/Srq.antt =====
-- Shared receive queues: dis_create_srq, dis_modify_srq, dis_query_srq, dis_post_srq_recv and
-- dis_destroy_srq of driver/dis_verbs.c. The lock `srq_lock` makes each a single step.
pub mod Create
mod Tests
use dis_kverbs.Common.{ℕ, Bool, List, [], Option, none, some, if◌then◌else◌, replicate}
use dis_kverbs.Kernel.{CircBuf, RoundUp}
use dis_kverbs.Verbs.{Ret, done, fail, Iovec, DisWq, zero_wqe, u32}
use dis_kverbs.Post.{IbWr, Mem, dis_qp_post_one_rqe}
use dis_kverbs.Qp.{post_all}

-- `struct dis_srq`; its own `sci_msq` is never used.
pub record DisSrq : Type 0 where
  pub rq : DisWq
  pub srq_type : ℕ
  pub srq_limit : ℕ

-- `struct ib_srq_init_attr`
pub record SrqAttr : Type 0 where
  pub srq_type : ℕ
  pub max_wr : ℕ
  pub max_sge : ℕ
  pub srq_limit : ℕ

-- `alloc` says whether kzalloc finds memory.
pub dis_create_srq : RoundUp → DisSrq → SrqAttr → Bool → Ret × DisSrq
dis_create_srq r srq attr alloc =
    let wqe_max = u32 (r.roundup_pow_of_two attr.max_wr) in
    let buf = if alloc then replicate wqe_max zero_wqe else [] in
    (
      if alloc then done else fail 42,
      record {
        rq = record (srq.rq) { sge_max = attr.max_sge; wqe_max = wqe_max; buf = buf };
        srq_type = attr.srq_type;
        srq_limit = attr.srq_limit;
      },
    )

pub dis_modify_srq : DisSrq → Ret × DisSrq
dis_modify_srq srq = (done, srq)

-- The result with what is written to `max_wr`, `max_sge` and `srq_limit`.
unfoldable pub dis_query_srq : DisSrq → Ret × ℕ × ℕ × ℕ
dis_query_srq srq = (done, srq.rq.wqe_max, srq.rq.sge_max, srq.srq_limit)

module _ (c : CircBuf) (kmalloc : ℕ → Option (ℕ × List Iovec)) (mem : Mem) where
  abbrev pub with_srq : DisSrq → Option (Ret × DisWq) → Option (Ret × DisSrq)
  with_srq srq none = none
  with_srq srq (some (ret, wq)) = some (ret, record srq { rq = wq })

  pub dis_post_srq_recv : DisSrq → List IbWr → Option (Ret × DisSrq)
  dis_post_srq_recv srq wrs = with_srq srq (post_all (dis_qp_post_one_rqe c kmalloc mem) srq.rq wrs)

pub dis_destroy_srq : DisSrq → DisSrq
dis_destroy_srq srq = record srq { rq = record (srq.rq) { buf = [] } }
