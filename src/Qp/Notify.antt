-- ===== src/Qp/Notify.antt =====
-- What dis_qp_notify does to a work queue.
use dis_kverbs.Common.{◌≡◌, ◌≢◌, arith}
use dis_kverbs.Verbs.{DisWq, wq_uninitialized, wq_post}
use dis_kverbs.Qp.{dis_qp_notify}

-- Only the flag may change.
pub notified :
    (wq : DisWq) → (dis_qp_notify wq).1 ≡ record wq { wq_flag = (dis_qp_notify wq).1.wq_flag }
unfolding dis_qp_notify
notified wq = ground arith

-- A queue that is initialized is flagged.
pub notify_flag :
    (wq : DisWq) → wq.wq_state ≢ wq_uninitialized → (dis_qp_notify wq).1.wq_flag ≡ wq_post
unfolding dis_qp_notify
notify_flag wq set_up = ground arith
